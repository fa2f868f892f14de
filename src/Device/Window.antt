-- ===== src/Device/Window.antt =====
-- The busy loop of `verify_cycle_counter` ends, behind its window.
use pqc_esp32s3_benchmarks.Prelude.{
  ℕ, zero, suc, ◌+◌, ◌-◌, ◌*◌, ◌≤◌, ◌<◌, ◌≡◌, refl, ◌∙◌, ap, false, ltb, arith, pos, sub_ℕ, some,
  Bool-cases, inl, inr, ◌⊎◌,
}
use pqc_esp32s3_benchmarks.Device.Clock.{Clock, busy_wait, measure_clock, window_us}
use pqc_esp32s3_benchmarks.Device.{elapsed_cycles}

sub_ℕ_of_le : (a b : ℕ) → b ≤ a → sub_ℕ a b ≡ pos (a - b)
sub_ℕ_of_le a b h = ground arith

module _ {Host : Type 0} (clock : Clock Host) where
  -- What the next reading of the timer gives.
  abbrev pub now : Host → ℕ
  now h = (clock.get_time h).0

  -- The host after so many readings of the timer.
  abbrev pub after_readings : ℕ → Host → Host
  after_readings zero h = h
  after_readings (suc n) h = after_readings n (clock.get_time h).1

  -- The timer never goes back, and `n` readings take it on.
  pub record Advances (n : ℕ) : Type 0 where
    pub keeps_time : (h : Host) → now h ≤ now (clock.get_time h).1
    pub keeps_cycles : (h : Host) → now h ≤ now (clock.get_cycle_count h).1
    pub progress : (h : Host) → now h < now (after_readings n h)

  module _ (n : ℕ) (law : Advances n) where
    busy_wait-skip :
        (k fuel all t0 : ℕ) (h : Host)
        → all ≡ k + fuel
        → ((h' : Host) × (busy_wait clock all t0 h ≡ some h'))
          ⊎ (busy_wait clock all t0 h ≡ busy_wait clock fuel t0 (after_readings k h))
    unfolding busy_wait
    busy_wait-skip zero fuel all t0 h same =
        inr (ap (λ f. busy_wait clock f t0 h) (omega (arith, same)))
    busy_wait-skip (suc k) fuel zero t0 h same = absurd (omega arith)
    busy_wait-skip (suc k) fuel (suc all) t0 h same =
        elim (Bool-cases (ltb (now h) (t0 + window_us))) [
          | inl e ↦ rw e (busy_wait-skip k fuel all t0 (clock.get_time h).1 (omega arith))
          | inr e ↦ inl ((clock.get_time h).1, rw e refl)
        ]

    busy_wait-ends :
        (m fuel t0 : ℕ) (h : Host)
        → t0 + window_us ≤ now h + m
        → n * m < fuel
        → (h' : Host) × (busy_wait clock fuel t0 h ≡ some h')
    unfolding busy_wait
    busy_wait-ends m zero t0 h late enough = absurd (omega arith)
    busy_wait-ends zero (suc fuel) t0 h late enough =
        let e : ltb (now h) (t0 + window_us) ≡ false = ground arith in
        ((clock.get_time h).1, rw e refl)
    busy_wait-ends (suc m) (suc fuel) t0 h late enough =
        let room : n * suc m ≡ n * m + n = omega arith in
        elim (busy_wait-skip n (suc fuel - n) (suc fuel) t0 h (omega (arith, room))) [
          | inl done ↦ done
          | inr skipped ↦
              let (h', done) =
                busy_wait-ends m (suc fuel - n) t0 (after_readings n h)
                  (omega (arith, law.progress h)) (omega (arith, room)) in
              (h', skipped ∙ done)
        ]

    busy_wait-late :
        (fuel t0 : ℕ) (h : Host) {h' : Host}
        → busy_wait clock fuel t0 h ≡ some h'
        → t0 + window_us ≤ now h'
    unfolding busy_wait
    busy_wait-late zero t0 h e = cc e
    busy_wait-late (suc fuel) t0 h {h'} e = elim (Bool-cases (ltb (now h) (t0 + window_us))) [
      | inl f ↦ busy_wait-late fuel t0 (clock.get_time h).1 (rw f at e)
      | inr f ↦
          let same : (clock.get_time h).1 ≡ h' = cc (rw f at e) in
          let late : t0 + window_us ≤ now h = ground arith in
          omega (arith, late, law.keeps_time h, ap (λ x. now x) same)
    ]

    -- With a timer that never goes back and that any `n` readings take on by a microsecond: the busy
    -- loop ends, within 200000 times `n` rounds and one, and the microseconds that are divided by
    -- are at least the window's 200000.
    pub measure_clock-window :
        (fuel : ℕ) (h : Host)
        → n * window_us < fuel
        → (cycles : ℕ) × (elapsed : ℕ) × (h' : Host) × (measure_clock clock fuel h
            ≡ some (cycles, pos elapsed, h'))
          × (window_us ≤ elapsed)
    unfolding measure_clock
    measure_clock-window fuel h enough =
        let t0 = now h in
        let h0 = (clock.get_time h).1 in
        let h1 = (clock.get_cycle_count h0).1 in
        let (h2, ends) =
          busy_wait-ends window_us fuel t0 h1 (omega (arith, law.keeps_time h, law.keeps_cycles h0))
            enough in
        let h3 = (clock.get_cycle_count h2).1 in
        let late = busy_wait-late fuel t0 h1 ends in
        let long : t0 + window_us ≤ now h3 = omega (arith, late, law.keeps_cycles h2) in
        (
          elapsed_cycles (clock.get_cycle_count h0).0 (clock.get_cycle_count h2).0,
          now h3 - t0,
          (clock.get_time h3).1,
          rw (measure_clock, ends)
              (ap
                (λ e. some (
                  elapsed_cycles (clock.get_cycle_count h0).0 (clock.get_cycle_count h2).0,
                  e,
                  (clock.get_time h3).1,
                ))
                (sub_ℕ_of_le (now h3) t0 (omega arith))),
          omega arith,
        )
