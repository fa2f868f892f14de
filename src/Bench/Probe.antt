-- ===== src/Bench/Probe.antt =====
-- The stack probe of bench.c with its tasks: `bench_stack_usage` starts one on the other core and waits at
-- most 20 seconds for its notification; `s_probe_op` and `s_probe_result` are shared.
pub mod Figures
use pqc_esp32s3_benchmarks.Prelude.{ℕ, zero, suc, ◌+◌, ◌<◌, ◌≡◌, Bool, true, List, [], ◌∷◌, ◌++◌}
use pqc_esp32s3_benchmarks.Bench.{stack_probe_task}

-- `s_probe_op`, `s_probe_result`, and the caller's notification value.
pub record Shared (Op : Type 0) : Type 0 where
  pub probe_op : Op
  pub probe_result : ℕ
  pub notified : ℕ

-- A probe task: before it reads `s_probe_op`, in the operation, and with the result written.
pub data Task (Op : Type 0) : Type 0 where
  created : Task Op
  running : Op → Task Op
  measured : Task Op

pub data Caller (Op : Type 0) : Type 0 where
  idle : Caller Op
  waiting : Op → Caller Op

-- `returned` holds what the calls returned, the last one first.
pub record Probe (Op : Type 0) : Type 0 where
  pub shared : Shared Op
  pub tasks : List (Task Op)
  pub caller : Caller Op
  pub returned : List (Op × ℕ)

-- `remaining` is the high-water mark that an operation leaves of a new task's stack.
module _ {Op : Type 0} (remaining : Op → ℕ) where
  -- One step of `stack_probe_task`; the last one notifies the caller and deletes the task.
  unfoldable pub task_step : Task Op → Shared Op → List (Task Op) × Shared Op
  task_step created g = (running g.probe_op ∷ [], g)
  task_step (running op) g =
      (measured ∷ [], record g { probe_result = stack_probe_task (remaining op) })
  task_step measured g = ([], record g { notified = g.notified + 1 })

  -- A step of task `i`, if there is one.
  unfoldable pub work_on : ℕ → List (Task Op) → Shared Op → List (Task Op) × Shared Op
  work_on i [] g = ([], g)
  work_on zero (t ∷ ts) g = let (now, g') = task_step t g in (now ++ ts, g')
  work_on (suc i) (t ∷ ts) g = let (ts', g') = work_on i ts g in (t ∷ ts', g')

  abbrev pub work : ℕ → Probe Op → Probe Op
  work i s =
      let (tasks, shared) = work_on i s.tasks s.shared in
      record s { tasks = tasks; shared = shared }

  -- Up to the task's creation, and from there to `ulTaskNotifyTake`.
  abbrev pub prepare : Op → Probe Op → Probe Op
  prepare op s = record s { shared = record s.shared { probe_op = op; probe_result = 0 } }

  abbrev pub call : Op → Probe Op → Probe Op
  call op s = record (prepare op s) { tasks = s.tasks ++ created ∷ []; caller = waiting op }

  -- `ulTaskNotifyTake` clears the value, and the result is returned whether it was zero or not.
  abbrev pub give_back : Op → Probe Op → Probe Op
  give_back op s = record s {
    shared = record s.shared { notified = 0 };
    caller = idle;
    returned = (op, s.shared.probe_result) ∷ s.returned;
  }

  -- Where the task cannot be created.
  abbrev pub refuse : Op → Probe Op → Probe Op
  refuse op s = record (prepare op s) { returned = (op, 0) ∷ s.returned }

  -- What may happen, in any order; whether the 20 seconds can pass is `slow`.
  pub data Step (slow : Bool) (s : Probe Op) : Probe Op → Type 0 where
    calls : (op : Op) → s.caller ≡ idle → Step slow s (call op s)
    refused : (op : Op) → s.caller ≡ idle → Step slow s (refuse op s)
    works : (i : ℕ) → Step slow s (work i s)
    notified :
        (op : Op) → s.caller ≡ waiting op → 0 < s.shared.notified → Step slow s (give_back op s)
    times_out :
        (op : Op)
        → slow ≡ true
        → s.caller ≡ waiting op
        → s.shared.notified ≡ 0
        → Step slow s (give_back op s)

  pub data Reach (slow : Bool) (s : Probe Op) : Probe Op → Type 0 where
    here : Reach slow s s
    later : {t u : Probe Op} → Reach slow s t → Step slow t u → Reach slow s u
