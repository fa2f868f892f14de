-- ===== src/Bench/Probe/Figures.antt =====
-- Whose figure a call of `bench_stack_usage` returns.
use pqc_esp32s3_benchmarks.Prelude.{
  ℕ, zero, suc, ◌<◌, ◌≡◌, refl, ap, true, false, List, [], ◌∷◌, ◌⊎◌, inl, inr, arith, false≢true,
}
use pqc_esp32s3_benchmarks.Bench.{stack_probe_task}
use pqc_esp32s3_benchmarks.Bench.Probe.{
  Shared, Task, created, running, measured, Caller, idle, waiting, Probe, task_step, work_on, work,
  call, give_back, Step, calls, refused, works, notified, times_out, Reach, here, later,
}

module _ {Op : Type 0} (remaining : Op → ℕ) where
  -- The figure of an operation on its own.
  abbrev pub figure : Op → ℕ
  figure op = stack_probe_task (remaining op)

  -- Each call got zero or the figure of its own operation.
  abbrev pub IsOwn : List (Op × ℕ) → Type 0
  IsOwn [] = Unit {0}
  IsOwn ((op, n) ∷ rest) = ((n ≡ 0) ⊎ (n ≡ figure op)) × IsOwn rest

  IsStage : Task Op → Op → Shared Op → Type 0
  IsStage created op g = (g.probe_op ≡ op) × (g.notified ≡ 0)
  IsStage (running own) op g = (own ≡ op) × (g.notified ≡ 0)
  IsStage measured op g = (g.probe_result ≡ figure op) × (g.notified ≡ 0)

  -- Without a time-out there is at most one task, and it is the caller's.
  IsPhase : List (Task Op) → Caller Op → Shared Op → Type 0
  unfolding IsStage
  IsPhase [] idle g = g.notified ≡ 0
  IsPhase [] (waiting op) g = (g.probe_result ≡ figure op) × (g.notified ≡ 1)
  IsPhase (t ∷ ts) idle g = ⊥
  IsPhase (t ∷ []) (waiting op) g = IsStage t op g
  IsPhase (t ∷ u ∷ ts) (waiting op) g = ⊥

  abbrev IsFit : Probe Op → Type 0
  IsFit s = IsPhase s.tasks s.caller s.shared × IsOwn s.returned

  work_on-IsPhase :
      (i : ℕ) (tasks : List (Task Op)) (caller : Caller Op) (g : Shared Op)
      → IsPhase tasks caller g
      → IsPhase (work_on remaining i tasks g).0 caller (work_on remaining i tasks g).1
  unfolding work_on task_step IsPhase IsStage
  work_on-IsPhase i [] caller g h = h
  work_on-IsPhase i (t ∷ ts) idle g h = absurd h
  work_on-IsPhase i (t ∷ u ∷ ts) (waiting op) g h = absurd h
  work_on-IsPhase zero (created ∷ []) (waiting op) g h = h
  work_on-IsPhase zero (running own ∷ []) (waiting op) g h = (ap figure h.0, h.1)
  work_on-IsPhase zero (measured ∷ []) (waiting op) g h = (h.0, omega (arith, h.1))
  work_on-IsPhase (suc i) (t ∷ []) (waiting op) g h = h

  -- An idle caller has no task, and a notified one the figure of its operation.
  idle-tasks :
      (tasks : List (Task Op)) (g : Shared Op)
      → IsPhase tasks idle g
      → (tasks ≡ []) × (g.notified ≡ 0)
  unfolding IsPhase
  idle-tasks [] g h = (refl, h)
  idle-tasks (t ∷ ts) g h = absurd h

  notified-figure :
      (tasks : List (Task Op)) (op : Op) (g : Shared Op)
      → IsPhase tasks (waiting op) g
      → 0 < g.notified
      → (tasks ≡ []) × (g.probe_result ≡ figure op)
  unfolding IsPhase IsStage
  notified-figure [] op g h n = (refl, h.0)
  notified-figure (created ∷ []) op g h n = absurd (omega (arith, h.1))
  notified-figure (running own ∷ []) op g h n = absurd (omega (arith, h.1))
  notified-figure (measured ∷ []) op g h n = absurd (omega (arith, h.1))
  notified-figure (t ∷ u ∷ ts) op g h n = absurd h

  Step-IsFit : {s t : Probe Op} → Step remaining false s t → IsFit s → IsFit t
  unfolding IsPhase IsStage
  Step-IsFit {s} (calls op free) h =
      let (none_left, quiet) = idle-tasks s.tasks s.shared (rw free at h.0) in
      (rw none_left (refl, quiet), h.1)
  Step-IsFit {s} (refused op free) h =
      let (none_left, quiet) = idle-tasks s.tasks s.shared (rw free at h.0) in
      (rw (none_left, free) quiet, (inl refl, h.1))
  Step-IsFit {s} (works i) h = (work_on-IsPhase i s.tasks s.caller s.shared h.0, h.1)
  Step-IsFit {s} (notified op held n) h =
      let (none_left, own) = notified-figure s.tasks op s.shared (rw held at h.0) n in
      (rw none_left refl, (inr own, h.1))
  Step-IsFit (times_out op late held n) h = absurd (false≢true late)

  -- While no wait times out: whatever the tasks and the caller do in whatever order, each call of
  -- `bench_stack_usage` returns zero or the figure of its own operation, if no probe was under way.
  pub Reach-IsOwn :
      {s t : Probe Op}
      → s.tasks ≡ []
      → s.caller ≡ idle
      → s.shared.notified ≡ 0
      → s.returned ≡ []
      → Reach remaining false s t
      → IsOwn t.returned
  unfolding IsPhase
  Reach-IsOwn {s} empty free quiet fresh r = (fit r).1
    where
      fit : {t : Probe Op} → Reach remaining false s t → IsFit t
      fit here = (rw (empty, free) quiet, rw fresh tt)
      fit (later r step) = Step-IsFit step (fit r)

  -- A probe of which nothing is under way.
  abbrev pub rested : Op → ℕ → Probe Op
  rested op n = record {
    shared = record { probe_op = op; probe_result = n; notified = 0 };
    tasks = [];
    caller = idle;
    returned = [];
  }

  -- The task of a call that timed out is neither stopped nor told apart from the next one: for any two
  -- operations there is an order of steps in which the call for the second one returns the figure of
  -- the first one.
  pub Reach-stale :
      (op : Op) (n : ℕ) (first second : Op)
      → (t : Probe Op) × Reach remaining true (rested op n) t
        × (t.returned ≡ (second, figure first) ∷ (first, 0) ∷ [])
  unfolding work_on task_step
  Reach-stale op n first second = (
    give_back remaining second told,
    later
        (later
          (later
            (later
              (later (later (later here (calls first refl)) (works 0))
                (times_out first refl refl refl))
              (calls second refl))
            (works 0))
          (works 0))
        (notified second refl (omega arith)),
    refl,
  )
    where
      begun : Probe Op
      begun = work remaining 0 (call remaining first (rested op n))

      again : Probe Op
      again = call remaining second (give_back remaining first begun)

      told : Probe Op
      told = work remaining 0 (work remaining 0 again)
