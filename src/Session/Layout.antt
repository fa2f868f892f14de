-- ===== src/Session/Layout.antt =====
-- The constants and types of pqc_session.c and pqc_session.h, and the configuration that
-- device_config.h and server_key.h supply.
use pqc_esp32s3_benchmarks.Prelude.{
  ℕ, ◌+◌, ◌≡◌, Bool, List, Option, none, some, ℤ, length, if◌then◌else◌, ◌%◌, ◌^◌, string_bytes,
  IsBytes,
}

abbrev pub u8 : ℕ → ℕ
u8 n = n % 2 ^ 8

abbrev pub u16 : ℕ → ℕ
u16 n = n % 2 ^ 16

abbrev pub u64 : ℕ → ℕ
u64 n = n % 2 ^ 64

abbrev pub protocol_version : ℕ
protocol_version = 0x01

abbrev pub suite_mlkem768 : ℕ
suite_mlkem768 = 0x01

abbrev pub suite_mlkem768_fs : ℕ
suite_mlkem768_fs = 0x11

abbrev pub frame_client_hello : ℕ
frame_client_hello = 0x01

abbrev pub frame_server_hello : ℕ
frame_server_hello = 0x02

abbrev pub frame_client_finished : ℕ
frame_client_finished = 0x03

abbrev pub frame_data : ℕ
frame_data = 0x10

abbrev pub frame_close : ℕ
frame_close = 0x7f

abbrev pub nonce_len : ℕ
nonce_len = 32

abbrev pub session_id_len : ℕ
session_id_len = 8

abbrev pub device_id_len : ℕ
device_id_len = 8

abbrev pub key_id_len : ℕ
key_id_len = 4

abbrev pub mac_len : ℕ
mac_len = 32

abbrev pub psk_len : ℕ
psk_len = 32

abbrev pub tag_len : ℕ
tag_len = 16

abbrev pub ss_len : ℕ
ss_len = 32

-- mlkem-native's sizes for ML-KEM-768 (FIPS 203)
abbrev pub ciphertext_bytes : ℕ
ciphertext_bytes = 1088

abbrev pub public_key_bytes : ℕ
public_key_bytes = 1184

abbrev pub client_hello_len : ℕ
client_hello_len = 2 + device_id_len + key_id_len + nonce_len + ciphertext_bytes + mac_len

abbrev pub server_hello_len : ℕ
server_hello_len = nonce_len + session_id_len + mac_len

abbrev pub server_hello_len_fs : ℕ
server_hello_len_fs = server_hello_len + public_key_bytes

abbrev pub client_key_exchange_len : ℕ
client_key_exchange_len = ciphertext_bytes + mac_len

abbrev pub label_hello : List ℕ
label_hello = string_bytes "PQC-IoT-1 hello"

abbrev pub label_srv_confirm : List ℕ
label_srv_confirm = string_bytes "PQC-IoT-1 server confirm"

abbrev pub label_cli_confirm : List ℕ
label_cli_confirm = string_bytes "PQC-IoT-1 client confirm"

abbrev pub label_c2s : List ℕ
label_c2s = string_bytes "PQC-IoT-1 c2s"

abbrev pub label_s2c : List ℕ
label_s2c = string_bytes "PQC-IoT-1 s2c"

-- DEVICE_ID, DEVICE_PSK, SERVER_HOST, SERVER_PORT, CONNECT_TIMEOUT_MS; SERVER_KEY_ID,
-- SERVER_PUBLIC_KEY.
pub record Config : Type 0 where
  pub device_id : List ℕ
  pub device_psk : List ℕ
  pub server_host : List ℕ
  pub server_port : ℕ
  pub connect_timeout_ms : ℕ
  pub server_key_id : List ℕ
  pub server_public_key : List ℕ

-- The array sizes that the C declarations fix.
pub record IsConfig (c : Config) : Type 0 where
  pub device_id_size : length c.device_id ≡ device_id_len
  pub device_psk_size : length c.device_psk ≡ psk_len
  pub server_key_id_size : length c.server_key_id ≡ key_id_len
  pub server_public_key_size : length c.server_public_key ≡ public_key_bytes

-- `session_keys_t`
pub record Keys : Type 0 where
  pub srv_confirm : List ℕ
  pub cli_confirm : List ℕ
  pub c2s : List ℕ
  pub s2c : List ℕ

-- `pqc_session_t`
pub record Session : Type 0 where
  pub session_id : List ℕ
  pub c2s : List ℕ
  pub send_seq : ℕ
  pub encap_us : ℤ
  pub eph_encap_us : ℤ
  pub forward_secrecy : Bool
  pub handshake_bytes : ℕ

-- `pqc_mode_t`
pub data Mode : Type 0 where
  mode_a : Mode
  mode_b_forward_secrecy : Mode

-- The network stack and the board, with the static buffers `s_hello`, `s_frame` and `s_out`.
pub record World (Net Host : Type 0) : Type 0 where
  pub net : Net
  pub host : Host
  pub hello : List ℕ
  pub frame : List ℕ
  pub out : List ℕ

-- The buffers have their declared sizes; `s_frame` holds bytes.
pub record IsWorld {Net Host : Type 0} (w : World Net Host) : Type 0 where
  pub hello_size : length w.hello ≡ client_hello_len
  pub frame_bytes : IsBytes w.frame
  pub frame_size : length w.frame ≡ server_hello_len_fs
  pub out_size : length w.out ≡ client_key_exchange_len

-- A function that returns false early: `none`, with the world as it left it.
abbrev pub Run : Type 0 → Type 0 → Type 0 → Type 0
Run Net Host A = World Net Host → Option A × World Net Host

infixl 5 ◌>>=◌ ◌>>◌
abbrev pub ◌>>=◌ : {Net Host A B : Type 0} → Run Net Host A → (A → Run Net Host B) → Run Net Host B
◌>>=◌ m f w = let (r, w') = m w in elim r [ none ↦ (none, w') | some a ↦ f a w' ]

abbrev pub ◌>>◌ : {Net Host B : Type 0} → Run Net Host (Unit {0}) → Run Net Host B → Run Net Host B
m >> k = m >>= λ _. k

-- `if (!ok) return false;`
abbrev pub guard : {Net Host : Type 0} → Bool → Run Net Host (Unit {0})
guard ok w = (if ok then some tt else none, w)
