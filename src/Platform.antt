-- ===== src/Platform.antt =====
-- What the firmware calls and does not implement: lwIP's sockets, ESP-IDF's random source, timer
-- and radio state, mbedtls and mlkem-native. `Net` is the state of the network stack with the peer
-- behind it, `Host` that of the board. The operations are parameters of the models; the laws below
-- state what the code relies on of each.
use pqc_esp32s3_benchmarks.Prelude.{
  ℕ, ◌+◌, ◌^◌, ◌≤◌, ◌<◌, ◌≡◌, Bool, true, false, List, ◌∷◌, ◌++◌, ℤ, pos, is_zero, is_negative,
  count_of, length, take, IsBytes,
}

-- `send`, `recv`, `getaddrinfo`, `socket`, `setsockopt`, `connect`, `close` of lwIP. A call that
-- takes a buffer takes the bytes of it; `recv` returns the bytes that it stored beside its result.
pub record Sockets (Net : Type 0) : Type 0 where
  pub send : ℤ → List ℕ → Net → ℤ × Net
  pub recv : ℤ → ℕ → Net → ℤ × List ℕ × Net
  -- the result, and whether `res` is not NULL
  pub getaddrinfo : List ℕ → List ℕ → Net → ℤ × Bool × Net
  pub freeaddrinfo : Net → Net
  pub socket : Net → ℤ × Net
  -- the socket, SO_RCVTIMEO or SO_SNDTIMEO, seconds, microseconds
  pub setsockopt : ℤ → Bool → ℕ → ℕ → Net → Net
  pub connect : ℤ → Net → ℤ × Net
  pub close : ℤ → Net → Net

-- `esp_fill_random`, `esp_timer_get_time`, and `esp_wifi_get_mode` (result, mode).
pub record Board (Host : Type 0) : Type 0 where
  pub fill_random : ℕ → Host → List ℕ × Host
  pub get_time : Host → ℕ × Host
  pub wifi_get_mode : Host → ℤ × ℕ

-- mbedtls: HMAC, HKDF and the hash over SHA-256, and AES-GCM. A streaming context is the
-- concatenation of its updates.
pub record Mbedtls : Type 0 where
  pub hmac : List ℕ → List ℕ → List ℕ
  pub sha256 : List ℕ → List ℕ
  pub hkdf_extract : List ℕ → List ℕ → List ℕ
  pub hkdf_expand : List ℕ → List ℕ → ℕ → List ℕ
  -- key, bits
  pub gcm_setkey : List ℕ → ℕ → ℤ
  -- key, nonce, additional data, plain text: the result, the cipher text, the tag
  pub gcm_encrypt : List ℕ → List ℕ → List ℕ → List ℕ → ℤ × List ℕ × List ℕ

-- `randombytes` of the consumer, as mlkem-native calls it: result, bytes.
abbrev pub RandomBytes : Type 0 → Type 0
RandomBytes Host = ℕ → Host → ℤ × List ℕ × Host

-- `mlkem768_enc`: result, cipher text, shared secret. It draws its coins by `randombytes`.
pub record MlkemEnc (Host : Type 0) : Type 0 where
  pub enc : RandomBytes Host → List ℕ → Host → ℤ × List ℕ × List ℕ × Host

pub record Platform (Net Host : Type 0) : Type 0 where
  pub sockets : Sockets Net
  pub board : Board Host
  pub mbedtls : Mbedtls
  pub mlkem : MlkemEnc Host

-- `double`: the conversions from `uint32_t` and from signed integers, its operations, and `sqrt`.
pub record Double (D : Type 0) : Type 0 where
  pub of_u32 : ℕ → D
  pub of_int : ℤ → D
  pub add : D → D → D
  pub sub : D → D → D
  pub mul : D → D → D
  pub div : D → D → D
  pub neg : D → D
  pub sqrt : D → D
  pub is_less : D → D → Bool

-- A byte stream: `send` passes on a first part of what it is offered, and says how much; `recv`
-- takes a first part of what is on its way, no more than asked for, and says how much.
-- `sent` is all that was handed to the network so far on a socket, and `pending` what the peer's
-- side delivers from here on if nothing more is sent.
pub record IsStream {Net : Type 0} (s : Sockets Net) : Type 0 where
  pub sent : ℤ → Net → List ℕ
  pub pending : ℤ → Net → List ℕ
  pub send-sent :
      (k : ℤ) (b : List ℕ) (net : Net)
      → sent k (s.send k b net).1 ≡ sent k net ++ take (count_of (s.send k b net).0) b
  pub recv-sent : (k : ℤ) (n : ℕ) (net : Net) → sent k (s.recv k n net).2 ≡ sent k net
  pub recv-pending :
      (k : ℤ) (n : ℕ) (net : Net)
      → (s.recv k n net).1 ++ pending k (s.recv k n net).2 ≡ pending k net
  pub recv-count :
      (k : ℤ) (n : ℕ) (net : Net) → length (s.recv k n net).1 ≡ count_of (s.recv k n net).0
  pub pending-IsBytes : (k : ℤ) (net : Net) → IsBytes (pending k net)
  pub recv-capacity : (k : ℤ) (n : ℕ) (net : Net) → length (s.recv k n net).1 ≤ n

-- Nothing interrupts the connection: a `send` makes progress, and so does a `recv` while bytes are
-- on their way.
pub record IsLive {Net : Type 0} (s : Sockets Net) (st : IsStream s) : Type 0 where
  pub send_progress :
      (k : ℤ) (b : List ℕ) (net : Net) → 0 < length b → 0 < count_of (s.send k b net).0
  pub recv_progress :
      (k : ℤ) (n : ℕ) (net : Net)
      → 0 < n
      → 0 < length (st.pending k net)
      → 0 < count_of (s.recv k n net).0

-- The sizes that the functions of mbedtls write; what HMAC and
-- AES-GCM write are bytes.
pub record HasSizes (m : Mbedtls) : Type 0 where
  pub length-hmac : (k b : List ℕ) → length (m.hmac k b) ≡ 32
  pub hmac-IsBytes : (k b : List ℕ) → IsBytes (m.hmac k b)
  pub length-sha256 : (b : List ℕ) → length (m.sha256 b) ≡ 32
  pub length-hkdf_expand : (k b : List ℕ) (n : ℕ) → length (m.hkdf_expand k b n) ≡ n
  pub length-ciphertext : (k n a b : List ℕ) → length (m.gcm_encrypt k n a b).1 ≡ length b
  pub gcm-IsBytes :
      (k n a b : List ℕ) → IsBytes (m.gcm_encrypt k n a b).1 × IsBytes (m.gcm_encrypt k n a b).2
  pub length-tag : (k n a b : List ℕ) → length (m.gcm_encrypt k n a b).2 ≡ 16

-- `esp_fill_random` fills what it is asked to fill.
pub record HasRandom {Host : Type 0} (b : Board Host) : Type 0 where
  pub length-fill_random : (n : ℕ) (h : Host) → length (b.fill_random n h).0 ≡ n

-- `mlkem768_enc` writes a cipher text of 1088 bytes and a secret of 32; it fails if its random
-- source does.
pub record HasEnc {Host : Type 0} (m : MlkemEnc Host) : Type 0 where
  pub length-ct : (r : RandomBytes Host) (ek : List ℕ) (h : Host) → length (m.enc r ek h).1 ≡ 1088
  pub length-ss : (r : RandomBytes Host) (ek : List ℕ) (h : Host) → length (m.enc r ek h).2 ≡ 32
  pub refuses :
      (r : RandomBytes Host) (ek : List ℕ) (h : Host)
      → ((n : ℕ) (h' : Host) → is_zero (r n h').0 ≡ false)
      → is_zero (m.enc r ek h).0 ≡ false

-- AES-GCM takes every key of 256 bits, and encrypts whatever it is given.
pub record Encrypts (m : Mbedtls) : Type 0 where
  pub accepts_key : (k : List ℕ) → is_zero (m.gcm_setkey k 256) ≡ true
  pub encrypts : (k n a b : List ℕ) → is_zero (m.gcm_encrypt k n a b).0 ≡ true

-- Only `send` hands bytes to a connection.
pub record IsQuiet {Net : Type 0} (s : Sockets Net) (st : IsStream s) : Type 0 where
  pub getaddrinfo-sent :
      (k : ℤ) (host port : List ℕ) (net : Net)
      → st.sent k (s.getaddrinfo host port net).2 ≡ st.sent k net
  pub freeaddrinfo-sent : (k : ℤ) (net : Net) → st.sent k (s.freeaddrinfo net) ≡ st.sent k net
  pub socket-sent : (k : ℤ) (net : Net) → st.sent k (s.socket net).1 ≡ st.sent k net
  pub setsockopt-sent :
      (k j : ℤ) (rcv : Bool) (sec usec : ℕ) (net : Net)
      → st.sent k (s.setsockopt j rcv sec usec net) ≡ st.sent k net
  pub connect-sent : (k j : ℤ) (net : Net) → st.sent k (s.connect j net).1 ≡ st.sent k net
  pub close-sent : (k j : ℤ) (net : Net) → st.sent k (s.close j net) ≡ st.sent k net

-- The sockets that are open, the last one first: `socket` opens one if it returns one, `close` closes it,
-- and no other call opens or closes any.
pub record Tracks {Net : Type 0} (s : Sockets Net) : Type 0 where
  pub in_use : Net → List ℤ
  pub socket-opens :
      (net : Net)
      → is_negative (s.socket net).0 ≡ false
      → in_use (s.socket net).1 ≡ (s.socket net).0 ∷ in_use net
  pub socket-fails :
      (net : Net) → is_negative (s.socket net).0 ≡ true → in_use (s.socket net).1 ≡ in_use net
  pub close-closes :
      (k : ℤ) (others : List ℤ) (net : Net)
      → in_use net ≡ k ∷ others
      → in_use (s.close k net) ≡ others
  pub getaddrinfo-keeps :
      (host port : List ℕ) (net : Net) → in_use (s.getaddrinfo host port net).2 ≡ in_use net
  pub freeaddrinfo-keeps : (net : Net) → in_use (s.freeaddrinfo net) ≡ in_use net
  pub setsockopt-keeps :
      (k : ℤ) (rcv : Bool) (sec usec : ℕ) (net : Net)
      → in_use (s.setsockopt k rcv sec usec net) ≡ in_use net
  pub connect-keeps : (k : ℤ) (net : Net) → in_use (s.connect k net).1 ≡ in_use net
  pub send-keeps : (k : ℤ) (b : List ℕ) (net : Net) → in_use (s.send k b net).1 ≡ in_use net
  pub recv-keeps : (k : ℤ) (n : ℕ) (net : Net) → in_use (s.recv k n net).2 ≡ in_use net

-- `whole n` is the double of value n: up to 2^53 these are exact, and so are their sums.
pub record IsExact {D : Type 0} (double : Double D) : Type 0 where
  pub whole : ℕ → D
  pub exact_u32 : (n : ℕ) → n < 2 ^ 32 → double.of_u32 n ≡ whole n
  pub exact_int : (n : ℕ) → n < 2 ^ 31 → double.of_int (pos n) ≡ whole n
  pub exact_add : (a b : ℕ) → a + b ≤ 2 ^ 53 → double.add (whole a) (whole b) ≡ whole (a + b)
