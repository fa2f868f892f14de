-- ===== src/Wifi/Retry.antt =====
-- How often the station tries again.
use pqc_esp32s3_benchmarks.Prelude.{
  ℕ, zero, suc, ◌+◌, ◌≤◌, ◌≡◌, refl, sym, ◌∙◌, ap, Bool, true, false, List, [], ◌∷◌, arith, ltb,
  min, if◌then◌else◌, Option, none, some, Bool-cases, inl, inr,
}
use pqc_esp32s3_benchmarks.Wifi.{
  Station, Bits, Event, wifi_event, got_ip, sta_start, sta_disconnected, other_id, on_wifi_event,
  on_ip_event, dispatch, set_failed,
}

unfoldable pub dispatch_all : List Event → Station → Station
dispatch_all [] s = s
dispatch_all (e ∷ es) s = dispatch_all es (dispatch e s)

dispatch-attempts : (e : Event) (s : Station) → s.attempts ≤ 8 → (dispatch e s).attempts ≤ 8
unfolding dispatch on_wifi_event on_ip_event
dispatch-attempts (wifi_event sta_start) s h = h
dispatch-attempts (wifi_event sta_disconnected) s h = elim (Bool-cases (ltb s.attempts 8)) [
  | inl e ↦ rw e (ground arith)
  | inr e ↦ rw e h
]
dispatch-attempts (wifi_event other_id) s h = h
dispatch-attempts (got_ip ip) s h = omega arith

-- Whatever events come, in whatever order, the station never counts more than eight retries.
pub dispatch_all-attempts :
    (es : List Event) (s : Station) → s.attempts ≤ 8 → (dispatch_all es s).attempts ≤ 8
unfolding dispatch_all
dispatch_all-attempts [] s h = h
dispatch_all-attempts (e ∷ es) s h =
    dispatch_all-attempts es (dispatch e s) (dispatch-attempts e s h)

unfoldable pub losses : ℕ → List Event
losses zero = []
losses (suc n) = wifi_event sta_disconnected ∷ losses n

set_failed_twice : (o : Option Bits) → set_failed (set_failed o) ≡ set_failed o
set_failed_twice none = refl
set_failed_twice (some b) = refl

set_failed_if :
    (b : Bool) (o : Option Bits)
    → (if b then set_failed (set_failed o) else set_failed o) ≡ set_failed o
set_failed_if true o = set_failed_twice o
set_failed_if false o = refl

-- A station that counts no more than eight retries and loses the network `n` times in a row connects
-- again each time until it counts eight; it sets the failed bit, once created, exactly if some loss
-- comes after that.
pub losses-retries :
    (n : ℕ) (s : Station)
    → s.attempts ≤ 8
    → (let s' = dispatch_all (losses n) s in
        (s'.attempts ≡ min (s.attempts + n) 8)
        × (s'.connects + s.attempts ≡ s.connects + min (s.attempts + n) 8)
        × (s'.events ≡ (if ltb 8 (s.attempts + n) then set_failed s.events else s.events)))
unfolding dispatch_all losses dispatch on_wifi_event
losses-retries zero s h =
    let e : ltb 8 (s.attempts + 0) ≡ false = ground arith in
    (omega arith, omega arith, ap (λ b. if b then set_failed s.events else s.events) (sym e))
losses-retries (suc n) s h = elim (Bool-cases (ltb s.attempts 8)) [
  | inl e ↦
      let next : Station = record s { attempts = s.attempts + 1; connects = s.connects + 1 } in
      let (a, c, f) = losses-retries n next (ground arith) in
      let again : s.attempts + 1 + n ≡ s.attempts + suc n = omega arith in
      rw (dispatch_all, e)
        (
          omega (arith, a),
          omega (arith, c),
          f ∙ ap (λ m. if ltb 8 m then set_failed s.events else s.events) again,
        )
  | inr e ↦
      let (a, c, f) = losses-retries n (record s { events = set_failed s.events }) h in
      let full : 8 ≤ s.attempts = ground arith in
      let past : ltb 8 (s.attempts + suc n) ≡ true = ground arith in
      rw (dispatch_all, e)
        (
          omega (arith, a),
          omega (arith, c),
          f
              ∙ (set_failed_if (ltb 8 (s.attempts + n)) s.events
                  ∙ ap (λ b. if b then set_failed s.events else s.events) (sym past)),
        )
]
