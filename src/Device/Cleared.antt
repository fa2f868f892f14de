-- ===== src/Device/Cleared.antt =====
-- What stands behind the bring-up checks of `app_main`.
use pqc_esp32s3_benchmarks.Prelude.{
  ℕ, ◌≡◌, refl, ◌∙◌, ap, subst, arith, Bool, true, false, ◌&&◌, some, Bool-cases, Option-cases, inl,
  inr, ◌⊎◌,
}
use pqc_esp32s3_benchmarks.Kat.{mlkem_kat_run}
use pqc_esp32s3_benchmarks.Kat.Verdict.{Conforms, kat_run-Conforms}
use pqc_esp32s3_benchmarks.Selftest.{mlkem_selftest_run}
use pqc_esp32s3_benchmarks.Wifi.{Outcome, Station, wifi_sta_start, aborted, no_mem, ok, fail}
use pqc_esp32s3_benchmarks.Wifi.Start.{Joined, wifi_sta_start-Joined}
use pqc_esp32s3_benchmarks.Session.Layout.{World, mode_a, mode_b_forward_secrecy}
use pqc_esp32s3_benchmarks.Session.Client.{pqc_session_run}
use pqc_esp32s3_benchmarks.Device.{verify_buffer_placement}
use pqc_esp32s3_benchmarks.Device.Clock.{verify_cycle_counter}
use pqc_esp32s3_benchmarks.Device.Main.{
  Machine, Parts, End, bring_up_failed, restarted, no_network, sessions, clock_of, run_sessions,
  on_network, protocol_client, app_main,
}

abbrev pub has_sessions : End → Bool
has_sessions bring_up_failed = false
has_sessions restarted = false
has_sessions no_network = false
has_sessions (sessions a b) = true

module _ {Ram Net Host D : Type 0} (d : Parts Ram Net Host D) where
  -- All four checks passed; `host` is the board behind them.
  pub record Cleared (fuel : ℕ) (m : Machine Ram Net Host) (host : Host) : Type 0 where
    pub placement : (verify_buffer_placement d.heap m.ram).0 ≡ true
    pub counter : verify_cycle_counter (clock_of d) d.double fuel m.world.host ≡ some (true, host)
    pub selftest : mlkem_selftest_run d.kem512 d.kem768 ≡ true
    pub kat : Conforms d.kem512 d.tables512 × Conforms d.kem768 d.tables768

  -- The radio was started on the state behind the checks.
  abbrev pub joined_world : Machine Ram Net Host → Host → World Net Host
  joined_world m host = on_network d (record m.world { host = host })

  -- The way to the sessions, with their results.
  pub record Ran (fuel : ℕ) (m : Machine Ram Net Host) (a b : Bool) (m' : Machine Ram Net Host)
      : Type 0 where
    pub host : Host
    pub cleared : Cleared fuel m host
    pub joined : Joined d.bringup m.station m'.station
    pub between : World Net Host
    pub first : pqc_session_run d.platform d.config mode_a 3 (joined_world m host) ≡ (a, between)
    pub second :
        pqc_session_run d.platform d.config mode_b_forward_secrecy 3 between ≡ (b, m'.world)

  -- No session: the radio stayed off, or was started behind the checks; the buffers are as they were.
  pub data Stopped (fuel : ℕ) (m : Machine Ram Net Host) : Machine Ram Net Host → Type 0 where
    unchecked :
        {ram : Ram} {host : Host}
        → Stopped fuel m (record m { ram = ram; world = record m.world { host = host } })
    unjoined :
        {ram : Ram} {host : Host} {station : Station}
        → Cleared fuel m host
        → Stopped fuel m (record m { ram = ram; station = station; world = joined_world m host })

  -- How a run of `app_main` ended.
  abbrev pub Ended : ℕ → Machine Ram Net Host → End × Machine Ram Net Host → Type 0
  Ended fuel m (end, m') =
      ((has_sessions end ≡ false) × Stopped fuel m m')
      ⊎ ((a : Bool) × (b : Bool) × (end ≡ sessions a b) × Ran fuel m a b m')

  protocol_client-Ended :
      (fuel : ℕ) (m : Machine Ram Net Host) (ram : Ram) (host : Host) (started : Outcome)
      → Cleared fuel m host
      → (wifi_sta_start d.bringup m.station).0 ≡ started
      → Ended fuel m
          (protocol_client d (record m { ram = ram; world = record m.world { host = host } }))
  unfolding protocol_client run_sessions
  protocol_client-Ended fuel m ram host aborted c e =
      rw (protocol_client, e) (inl (refl, unjoined c))
  protocol_client-Ended fuel m ram host no_mem c e =
      rw (protocol_client, e) (inl (refl, unjoined c))
  protocol_client-Ended fuel m ram host fail c e = rw (protocol_client, e) (inl (refl, unjoined c))
  protocol_client-Ended fuel m ram host ok c e =
      rw (protocol_client, e)
        (inr (
          _,
          _,
          refl,
          record {
            host = host;
            cleared = c;
            joined =
                wifi_sta_start-Joined d.bringup m.station
                  (ap (λ o. (o, (wifi_sta_start d.bringup m.station).1)) e);
            between = _;
            first = refl;
            second = refl;
          },
        ))

  all_four :
      (p q r s : Bool)
      → (p && q && r && s) ≡ true
      → (p ≡ true) × (q ≡ true) × (r ≡ true) × (s ≡ true)
  all_four p q r s e = ground arith

  -- If `app_main` ends, then either it ran no session, left the buffers as they were, and started the
  -- radio only if all four checks had passed; or all four checks passed, which for the conformance
  -- test means every vector of both parameter sets, the network was joined, and the sessions ran, mode A
  -- first and mode B on what it left, whatever A returned.
  pub app_main-Ended :
      (fuel : ℕ) (m : Machine Ram Net Host) {r : End × Machine Ram Net Host}
      → app_main d fuel m ≡ some r
      → Ended fuel m r
  unfolding app_main
  app_main-Ended fuel m {r} e =
      elim (Option-cases (verify_cycle_counter (clock_of d) d.double fuel m.world.host)) [
        | inl f ↦ cc (rw (app_main, f) at e)
        | inr (counted, f) ↦ elim (Bool-cases (passed counted.0)) [
          | inr g ↦
              let same : (bring_up_failed, left counted.1) ≡ r =
                cc (rw g at (rw (app_main, f) at e)) in
              subst (Ended fuel m) same (inl (refl, unchecked))
          | inl g ↦
              let (a, b, s, k) =
                all_four (verify_buffer_placement d.heap m.ram).0 counted.0
                  (mlkem_selftest_run d.kem512 d.kem768)
                  (mlkem_kat_run d.kem512 d.tables512 d.kem768 d.tables768) g in
              let same : protocol_client d (left counted.1) ≡ r =
                cc (rw g at (rw (app_main, f) at e)) in
              subst (Ended fuel m) same (
                protocol_client-Ended fuel m (verify_buffer_placement d.heap m.ram).1 counted.1
                  (wifi_sta_start d.bringup m.station).0
                  (record {
                    placement = a;
                    counter = f ∙ ap (λ x. some (x, counted.1)) b;
                    selftest = s;
                    kat = (kat_run-Conforms d.kem512 d.tables512 d.kem768 d.tables768).0 k;
                  })
                  refl)
        ]
      ]
    where
      left : Host → Machine Ram Net Host
      left host = record m {
        ram = (verify_buffer_placement d.heap m.ram).1;
        world = record m.world { host = host };
      }

      passed : Bool → Bool
      passed counter_ok =
          (verify_buffer_placement d.heap m.ram).0
          && counter_ok
          && mlkem_selftest_run d.kem512 d.kem768
          && mlkem_kat_run d.kem512 d.tables512 d.kem768 d.tables768
