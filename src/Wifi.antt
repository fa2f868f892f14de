-- ===== src/Wifi.antt =====
-- firmware/esp32s3-dut/main/wifi_sta.c: joining the network. ESP-IDF calls the two event handlers;
-- `wifi_sta_start` waits for one of the two bits that they set.
pub mod Retry
pub mod Start
use pqc_esp32s3_benchmarks.Prelude.{
  ℕ, zero, suc, ◌+◌, Bool, true, false, ◌||◌, ◌&&◌, not, List, [], ◌∷◌, ltb, ℤ, pos, is_zero,
  if◌then◌else◌, Option, none, some,
}

-- MAX_ATTEMPTS
abbrev pub max_attempts : ℕ
max_attempts = 8

-- `s_events` with its two bits (`none` before it is created), `s_attempts` and `s_ip`, and the number
-- of calls of `esp_wifi_connect`.
pub record Bits : Type 0 where
  pub connected : Bool
  pub failed : Bool

pub record Station : Type 0 where
  pub events : Option Bits
  pub attempts : ℕ
  pub ip : ℕ
  pub connects : ℕ

-- The events that the handlers tell apart, with their base and id.
pub data WifiId : Type 0 where
  sta_start : WifiId
  sta_disconnected : WifiId
  other_id : WifiId

pub data Event : Type 0 where
  wifi_event : WifiId → Event
  got_ip : ℕ → Event

abbrev pub set_failed : Option Bits → Option Bits
set_failed none = none
set_failed (some b) = some (record b { failed = true })

abbrev pub set_connected : Option Bits → Option Bits
set_connected none = none
set_connected (some b) = some (record b { connected = true })

unfoldable pub on_wifi_event : WifiId → Station → Station
on_wifi_event sta_start s = record s { connects = s.connects + 1 }
on_wifi_event sta_disconnected s =
    if ltb s.attempts max_attempts
    then record s { attempts = s.attempts + 1; connects = s.connects + 1 }
    else record s { events = set_failed s.events }
on_wifi_event other_id s = s

unfoldable pub on_ip_event : ℕ → Station → Station
on_ip_event ip s = record s { ip = ip; attempts = 0; events = set_connected s.events }

-- The handlers are registered for all Wi-Fi events and for IP_EVENT_STA_GOT_IP.
unfoldable pub dispatch : Event → Station → Station
dispatch (wifi_event id) s = on_wifi_event id s
dispatch (got_ip ip) s = on_ip_event ip s

abbrev pub has_bit : Station → Bool
has_bit s = elim s.events [ none ↦ false | some b ↦ b.connected || b.failed ]

unfoldable pub wifi_sta_is_connected : Station → Bool
wifi_sta_is_connected s = elim s.events [ none ↦ false | some b ↦ b.connected ]

-- `xEventGroupWaitBits` for either bit: the events that come before the time is up are handled until
-- one of the bits is set.
unfoldable pub wait_bits : List Event → Station → Station
wait_bits [] s = s
wait_bits (e ∷ es) s = let rest = wait_bits es (dispatch e s) in if has_bit s then s else rest

-- The results of the calls that `wifi_sta_start` makes, in their order, and the events that come
-- while it waits. `nvs_again` is the second `nvs_flash_init`.
pub record Bringup : Type 0 where
  pub nvs_init : ℤ
  pub nvs_needs_erase : Bool
  pub nvs_erase : ℤ
  pub nvs_again : ℤ
  pub group_created : Bool
  pub netif_init : ℤ
  pub event_loop : ℤ
  pub wifi_init : ℤ
  pub register_wifi : ℤ
  pub register_ip : ℤ
  pub set_mode : ℤ
  pub set_config : ℤ
  pub wifi_start : ℤ
  pub arriving : List Event

pub data Outcome : Type 0 where
  aborted : Outcome
  no_mem : Outcome
  ok : Outcome
  fail : Outcome

-- The calls in `ESP_ERROR_CHECK` behind the event group, in their order: the first error aborts.
-- `register_wifi` and `register_ip` register the two handlers.
unfoldable pub all_ok : Bringup → Bool
all_ok b =
    is_zero b.netif_init
    && is_zero b.event_loop
    && is_zero b.wifi_init
    && is_zero b.register_wifi
    && is_zero b.register_ip
    && is_zero b.set_mode
    && is_zero b.set_config
    && is_zero b.wifi_start

-- `nvs_flash_init`, with the erasure of an NVS without free pages or of a newer version.
abbrev pub nvs_ready : Bringup → Bool
nvs_ready b =
    if b.nvs_needs_erase then is_zero b.nvs_erase && is_zero b.nvs_again else is_zero b.nvs_init

unfoldable pub wifi_sta_start : Bringup → Station → Outcome × Station
wifi_sta_start b s =
    let fresh = record s { events = some (record { connected = false; failed = false }) } in
    let waited = wait_bits b.arriving fresh in
    if not (nvs_ready b)
    then (aborted, s)
    else (if not b.group_created
        then (no_mem, s)
        else (if not (all_ok b)
            then (aborted, fresh)
            else (if wifi_sta_is_connected waited then (ok, waited) else (fail, waited))))
