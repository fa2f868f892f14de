-- ===== src/Device/Completed.antt =====
-- The fuel of `app_main`, and what the bytes of a device that printed "session completed" were.
use pqc_esp32s3_benchmarks.Prelude.{
  ℕ, ◌*◌, ◌<◌, ◌≡◌, ◌∙◌, ap, true, some, arith, inl, inr, Option-cases,
}
use pqc_esp32s3_benchmarks.Platform.{HasSizes, HasRandom, HasEnc, IsStream, IsQuiet}
use pqc_esp32s3_benchmarks.Session.Layout.{IsConfig, World, IsWorld, mode_a, mode_b_forward_secrecy}
use pqc_esp32s3_benchmarks.Session.Client.Keeps.{moved, pqc_session_run-Keeps}
use pqc_esp32s3_benchmarks.Session.Client.Whole
use pqc_esp32s3_benchmarks.Session.Client.Whole.{pqc_session_run-Ran}
use pqc_esp32s3_benchmarks.Device.Clock.{verify_cycle_counter, window_us}
use pqc_esp32s3_benchmarks.Device.Window.{Advances, measure_clock-window}
use pqc_esp32s3_benchmarks.Device.Main.{Machine, Parts, End, sessions, clock_of, app_main}
use pqc_esp32s3_benchmarks.Device.Cleared.{Cleared, joined_world, app_main-Ended}

module _ {Ram Net Host D : Type 0} (d : Parts Ram Net Host D) where
  -- With a timer that never goes back and that any `n` readings take on by a microsecond: more than 200000
  -- times `n` rounds for the busy loop are enough fuel for `app_main`.
  pub app_main-result :
      (n fuel : ℕ) (m : Machine Ram Net Host)
      → Advances (clock_of d) n
      → n * window_us < fuel
      → (r : End × Machine Ram Net Host) × (app_main d fuel m ≡ some r)
  unfolding app_main verify_cycle_counter
  app_main-result n fuel m law enough =
      let (cycles, elapsed, h, counted, _) =
        measure_clock-window (clock_of d) n law fuel m.world.host enough in
      elim (Option-cases (app_main d fuel m)) [
        | inl stuck ↦ cc (rw (app_main, verify_cycle_counter, counted) at stuck)
        | inr done ↦ done
      ]

  -- The two sessions of a run: `between` is what mode A left.
  pub record Completed (st : IsStream d.platform.sockets) (fuel : ℕ) (m m' : Machine Ram Net Host)
      : Type 0 where
    pub host : Host
    pub cleared : Cleared d fuel m host
    pub between : World Net Host
    pub kept : IsWorld between
    pub first : Whole.Ran d.platform d.config mode_a (joined_world d m host) st 3 between
    pub second : Whole.Ran d.platform d.config mode_b_forward_secrecy between st 3 m'.world

  -- With data of the declared sizes, and calls that send nothing but `send`, on a byte stream: if
  -- `app_main` ends with both sessions successful, all four checks had passed, and each mode, A first,
  -- sent the messages of the specification, its three readings among them and a first part of Close at
  -- the end, and nothing else, to a server whose MAC was the specification's.
  pub app_main-Completed :
      (st : IsStream d.platform.sockets) (fuel : ℕ) (m : Machine Ram Net Host)
      {m' : Machine Ram Net Host}
      → IsQuiet d.platform.sockets st
      → IsConfig d.config
      → HasSizes d.platform.mbedtls
      → HasRandom d.platform.board
      → HasEnc d.platform.mlkem
      → IsWorld m.world
      → app_main d fuel m ≡ some (sessions true true, m')
      → Completed st fuel m m'
  app_main-Completed st fuel m {m'} q conf sz rnd ke sized e = elim (app_main-Ended d fuel m e) [
    | inl (none_ran, _) ↦ cc none_ran
    | inr (a, b, same, r) ↦
        let passed_a : a ≡ true = cc same in
        let passed_b : b ≡ true = cc same in
        let first = r.first ∙ ap (λ x. (x, r.between)) passed_a in
        let second = r.second ∙ ap (λ x. (x, m'.world)) passed_b in
        let start = moved m.world _ _ sized in
        let kept = rw first at (
          pqc_session_run-Keeps d.platform d.config sz st conf rnd ke mode_a 3
            (joined_world d m r.host) start) in
        record {
          host = r.host;
          cleared = r.cleared;
          between = r.between;
          kept = kept;
          first =
              pqc_session_run-Ran d.platform d.config mode_a (joined_world d m r.host) st q conf sz
                rnd ke start 3 (omega arith) first;
          second =
              pqc_session_run-Ran d.platform d.config mode_b_forward_secrecy r.between st q conf sz
                rnd ke kept 3 (omega arith) second;
        }
  ]
