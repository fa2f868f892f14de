-- ===== src/Wifi/Start.antt =====
-- When `wifi_sta_start` reports the network, and what `wifi_sta_is_connected` says afterwards.
use pqc_esp32s3_benchmarks.Prelude.{
  ℕ, ◌≡◌, refl, ◌∙◌, sym, subst, ap, ◌++◌, ◌&&◌, is_zero, false≢true, arith, Bool, true, false,
  List, [], ◌∷◌, ltb, Option, none, some, Bool-cases, inl, inr, if◌then◌else◌,
}
use pqc_esp32s3_benchmarks.Wifi.{
  Station, Bits, Event, wifi_event, got_ip, sta_start, sta_disconnected, other_id, on_wifi_event,
  on_ip_event, dispatch, set_failed, set_connected, wifi_sta_is_connected, wifi_sta_start, Bringup,
  Outcome, ok, fail, all_ok, nvs_ready, WifiId, has_bit, wait_bits,
}
use pqc_esp32s3_benchmarks.Wifi.Retry.{dispatch_all}

pub fresh : Station → Station
fresh s = record s { events = some (record { connected = false; failed = false }) }

fresh_off : (s : Station) → wifi_sta_is_connected (fresh s) ≡ false
unfolding fresh wifi_sta_is_connected
fresh_off s = refl

-- An address came: `ip` is that of the first address event that set the bit, and `s'` the state that
-- its handler left, behind those of the events before it.
pub record Assigned (es : List Event) (s s' : Station) : Type 0 where
  pub before : List Event
  pub address : ℕ
  pub after : List Event
  pub split : es ≡ before ++ got_ip address ∷ after
  pub state : s' ≡ on_ip_event address (dispatch_all before s)

-- What a start that reports the network says of the calls and the events.
pub record Joined (b : Bringup) (s s' : Station) : Type 0 where
  pub nvs : nvs_ready b ≡ true
  pub netif_init : is_zero b.netif_init ≡ true
  pub event_loop : is_zero b.event_loop ≡ true
  pub wifi_init : is_zero b.wifi_init ≡ true
  pub register_wifi : is_zero b.register_wifi ≡ true
  pub register_ip : is_zero b.register_ip ≡ true
  pub set_mode : is_zero b.set_mode ≡ true
  pub set_config : is_zero b.set_config ≡ true
  pub wifi_start : is_zero b.wifi_start ≡ true
  pub connected : wifi_sta_is_connected s' ≡ true
  pub assigned : Assigned b.arriving (fresh s) s'

set_failed_same :
    (s : Station) (o : Option Bits)
    → wifi_sta_is_connected (record s { events = set_failed o })
      ≡ wifi_sta_is_connected (record s { events = o })
unfolding wifi_sta_is_connected
set_failed_same s none = refl
set_failed_same s (some b) = refl

-- No Wi-Fi event touches the connected bit.
on_wifi_event-bit :
    (id : WifiId) (s : Station)
    → wifi_sta_is_connected (on_wifi_event id s) ≡ wifi_sta_is_connected s
unfolding on_wifi_event wifi_sta_is_connected
on_wifi_event-bit sta_start s = refl
on_wifi_event-bit other_id s = refl
on_wifi_event-bit sta_disconnected s = elim (Bool-cases (ltb s.attempts 8)) [
  | inl e ↦ rw e
  | inr e ↦ rw e (set_failed_same s s.events)
]

has_bit_of :
    (o : Option Bits) (s : Station)
    → wifi_sta_is_connected (record s { events = o }) ≡ true
    → has_bit (record s { events = o }) ≡ true
unfolding wifi_sta_is_connected
has_bit_of none s h = h
has_bit_of (some b) s h = rw h

wait_bits-stop : (es : List Event) (s : Station) → has_bit s ≡ true → wait_bits es s ≡ s
unfolding wait_bits
wait_bits-stop [] s h = refl
wait_bits-stop (e ∷ es) s h = rw h

-- The event that sets the connected bit is an address event, and the wait ends with it.
first_set :
    (e : Event) (es : List Event) (s : Station)
    → wifi_sta_is_connected s ≡ false
    → wifi_sta_is_connected (dispatch e s) ≡ true
    → Assigned (e ∷ es) s (wait_bits es (dispatch e s))
unfolding dispatch dispatch_all
first_set (wifi_event id) es s unset set =
    absurd (false≢true (sym (on_wifi_event-bit id s ∙ unset) ∙ set))
first_set (got_ip ip) es s unset set = record {
  before = [];
  address = ip;
  after = es;
  split = refl;
  state =
      wait_bits-stop es (on_ip_event ip s)
        (has_bit_of (on_ip_event ip s).events (on_ip_event ip s) set);
}

Assigned-behind :
    (e : Event) {es : List Event} {s s' : Station}
    → Assigned es (dispatch e s) s'
    → Assigned (e ∷ es) s s'
unfolding dispatch dispatch_all
Assigned-behind e a = record {
  before = e ∷ a.before;
  address = a.address;
  after = a.after;
  split = ap (λ l. e ∷ l) a.split;
  state = a.state;
}

wait_bits-Assigned :
    (es : List Event) (s : Station)
    → wifi_sta_is_connected s ≡ false
    → wifi_sta_is_connected (wait_bits es s) ≡ true
    → Assigned es s (wait_bits es s)
unfolding wait_bits
wait_bits-Assigned [] s off on = absurd (false≢true (sym off ∙ on))
wait_bits-Assigned (e ∷ es) s off on = elim (Bool-cases (has_bit s)) [
  | inl h ↦ absurd (false≢true (sym off ∙ (rw h at on)))
  | inr h ↦ elim (Bool-cases (wifi_sta_is_connected (dispatch e s))) [
    | inl set ↦ rw h (first_set e es s off set)
    | inr unset ↦ rw h (Assigned-behind e (wait_bits-Assigned es (dispatch e s) unset (rw h at on)))
  ]
]

ok_of :
    (b : Bool) (s : Station) {s' : Station}
    → ◌≡◌ {A = Outcome × Station} (if b then (ok, s) else (fail, s)) (ok, s')
    → (b ≡ true) × (s ≡ s')
ok_of true s e = (refl, ap (λ r. r.1) e)
ok_of false s e = cc (ap (λ r. r.0) e)

all_true :
    (a b c d e f g h : Bool)
    → (a && b && c && d && e && f && g && h) ≡ true
    → (a ≡ true)
      × (b ≡ true)
      × (c ≡ true)
      × (d ≡ true)
      × (e ≡ true)
      × (f ≡ true)
      × (g ≡ true)
      × (h ≡ true)
all_true a b c d e f g h same = ground arith

joined-checks :
    (b : Bringup) (s : Station) {s' : Station}
    → nvs_ready b ≡ true
    → all_ok b ≡ true
    → wifi_sta_is_connected s' ≡ true
    → Assigned b.arriving (fresh s) s'
    → Joined b s s'
unfolding all_ok
joined-checks b s n e on got =
    let (r1, r2, r3, r4, r5, r6, r7, r8) =
      all_true (is_zero b.netif_init) (is_zero b.event_loop) (is_zero b.wifi_init)
        (is_zero b.register_wifi) (is_zero b.register_ip) (is_zero b.set_mode)
        (is_zero b.set_config) (is_zero b.wifi_start) e in
    record {
      nvs = n;
      netif_init = r1;
      event_loop = r2;
      wifi_init = r3;
      register_wifi = r4;
      register_ip = r5;
      set_mode = r6;
      set_config = r7;
      wifi_start = r8;
      connected = on;
      assigned = got;
    }

pub wifi_sta_start-Joined :
    (b : Bringup) (s : Station) {s' : Station} → wifi_sta_start b s ≡ (ok, s') → Joined b s s'
unfolding wifi_sta_start fresh all_ok
wifi_sta_start-Joined b s {s'} e = elim (Bool-cases (nvs_ready b)) [
  | inr n ↦ cc (ap (λ r. r.0) (rw n at e))
  | inl n ↦ elim (Bool-cases b.group_created) [
    | inr g ↦ cc (ap (λ r. r.0) (rw g at (rw n at e)))
    | inl g ↦ elim (Bool-cases (all_ok b)) [
      | inr c ↦ cc (ap (λ r. r.0) (rw c at (rw g at (rw n at e))))
      | inl c ↦
          let (p, q) = ok_of _ _ (rw c at (rw g at (rw n at e))) in
          joined-checks b s n c (rw q at p) (
            subst (Assigned b.arriving (fresh s)) q
              (wait_bits-Assigned b.arriving (fresh s) (fresh_off s) p))
    ]
  ]
]

set_failed_keeps :
    (s : Station) (o : Option Bits)
    → wifi_sta_is_connected (record s { events = o }) ≡ true
    → wifi_sta_is_connected (record s { events = set_failed o }) ≡ true
unfolding wifi_sta_is_connected
set_failed_keeps s none h = h
set_failed_keeps s (some b) h = h

set_connected_keeps :
    (s : Station) (o : Option Bits)
    → wifi_sta_is_connected (record s { events = o }) ≡ true
    → wifi_sta_is_connected (record s { events = set_connected o }) ≡ true
unfolding wifi_sta_is_connected
set_connected_keeps s none h = h
set_connected_keeps s (some b) h = refl

dispatch_keeps :
    (e : Event) (s : Station)
    → wifi_sta_is_connected s ≡ true
    → wifi_sta_is_connected (dispatch e s) ≡ true
unfolding dispatch on_wifi_event on_ip_event wifi_sta_is_connected
dispatch_keeps (wifi_event sta_start) s h = h
dispatch_keeps (wifi_event other_id) s h = h
dispatch_keeps (wifi_event sta_disconnected) s h = elim (Bool-cases (ltb s.attempts 8)) [
  | inl e ↦ rw e h
  | inr e ↦ rw e (set_failed_keeps s s.events h)
]
dispatch_keeps (got_ip ip) s h = set_connected_keeps s s.events h

-- Once `wifi_sta_is_connected` holds it holds for good, whatever events come, also after the network is
-- lost.
pub connected-dispatch_all :
    (es : List Event) (s : Station)
    → wifi_sta_is_connected s ≡ true
    → wifi_sta_is_connected (dispatch_all es s) ≡ true
unfolding dispatch_all
connected-dispatch_all [] s h = h
connected-dispatch_all (e ∷ es) s h =
    connected-dispatch_all es (dispatch e s) (dispatch_keeps e s h)
