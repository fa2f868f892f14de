-- ===== src/Session/Client/Sequence.antt =====
-- The loop over the records in `pqc_session_run`.
use pqc_esp32s3_benchmarks.Prelude.{
  ℕ, zero, suc, ◌+◌, ◌^◌, ◌≤◌, ◌<◌, ◌≡◌, refl, ◌∙◌, ap, subst, sym, List, [], ◌++◌, arith, length,
  take, append-nil, append_assoc, ℤ, Option, none, some, Option-cases, inl, inr, take-all,
}
use pqc_esp32s3_benchmarks.Platform.{Platform, Mbedtls, HasSizes, IsStream}
use pqc_esp32s3_benchmarks.Session.Layout.{Config, Session, World, u16, u64, frame_data}
use pqc_esp32s3_benchmarks.Session.Spec
use pqc_esp32s3_benchmarks.Session.Frames.Wire.{encode_frame}
use pqc_esp32s3_benchmarks.Session.Records.{send_record}
use pqc_esp32s3_benchmarks.Session.Records.Wire.{RecordSent, send_record-RecordSent}
use pqc_esp32s3_benchmarks.Session.Client.{reading, format_reading, send_records}
use pqc_esp32s3_benchmarks.Session.Client.Reading.{length-reading, format_reading-whole}

-- The Data frames of the readings `n`, `n + 1` and so on, as many as `rounds`, under the sequence
-- numbers from `seq` on.
unfoldable pub data_frames : Mbedtls → List ℕ → List ℕ → ℕ → ℕ → ℕ → List ℕ
data_frames m id key seq n zero = []
data_frames m id key seq n (suc rounds) =
    encode_frame frame_data (Spec.data_record m id key seq (reading n))
    ++ data_frames m id key (u64 (seq + 1)) (n + 1) rounds

-- The numbers of the loop: `session` is the session that it starts with.
pub record AllSent {Net Host : Type 0} (p : Platform Net Host) (st : IsStream p.sockets) (sock : ℤ)
    (rounds n : ℕ) (session : Session) (w : World Net Host) (s : Session) (w' : World Net Host)
    : Type 0 where
  pub wire :
      st.sent sock w'.net
      ≡ st.sent sock w.net
        ++ data_frames p.mbedtls session.session_id session.c2s session.send_seq n rounds
  pub id : s.session_id ≡ session.session_id
  pub key : s.c2s ≡ session.c2s
  pub next : u64 s.send_seq ≡ u64 (session.send_seq + rounds)
  pub host : w'.host ≡ w.host

module _ {Net Host : Type 0} (p : Platform Net Host) (st : IsStream p.sockets)
    (sz : HasSizes p.mbedtls) (c : Config) (sock : ℤ) where
  one_reading :
      (n : ℕ) (session : Session) (w : World Net Host) {s : Session} {w' : World Net Host}
      → length session.session_id ≡ 8
      → length w.frame ≡ 1256
      → n + 810 < 2 ^ 31
      → send_record p sock session (format_reading n).0 (u16 (format_reading n).1) w ≡ (some s, w')
      → RecordSent p st sock session (reading n) w s w'
  one_reading n session w {s} {w'} id size small e =
      let whole = format_reading-whole n small in
      let len : u16 (format_reading n).1 ≡ length (reading n) =
        omega (arith, length-reading n small) in
      let text : take (u16 (format_reading n).1) (format_reading n).0 ≡ reading n =
        rw (len, whole) (take-all (length (reading n)) (reading n) (omega arith)) in
      subst (λ l. RecordSent p st sock session l w s w') text
        (send_record-RecordSent p st sz sock session id (format_reading n).0
          (u16 (format_reading n).1) w size (omega (arith, len, ap length whole)) e)

  -- With a session id of 8 bytes, `s_frame` of 1256, cipher outputs of the documented sizes and record
  -- numbers that the format's `810 + n` does not overflow: if the loop ends well, it sent one Data frame for each of its rounds and nothing else, in order:
  -- the frame of round `i` is the specification's record of reading `n + i` under the session's key
  -- and id and the sequence number that is `i` further, modulo 2^64.
  pub send_records-AllSent :
      (rounds n : ℕ) (session : Session) (total : ℕ) (w : World Net Host) {s : Session} {t : ℕ}
      {w' : World Net Host}
      → length session.session_id ≡ 8
      → length w.frame ≡ 1256
      → n + rounds + 810 ≤ 2 ^ 31
      → send_records p c sock rounds n session total w ≡ (some (s, t), w')
      → AllSent p st sock rounds n session w s w'
  unfolding send_records data_frames
  send_records-AllSent zero n session total w {s} {t} {w'} id size small e =
      let same : session ≡ s = ap (λ x. elim x.0 [ none ↦ session | some y ↦ y.0 ]) e in
      rw (← ap (λ x. x.1) e) (
        rw (← same) (record {
          wire = sym (append-nil (st.sent sock w.net));
          id = refl;
          key = refl;
          next = omega arith;
          host = refl;
        }))
  send_records-AllSent (suc rounds) n session total w {s} {t} {w'} id size small e =
      elim (Option-cases r.0) [
        | inl stop ↦ cc (ap (λ x. x.0) (rw (send_records, stop) at e))
        | inr (session', go) ↦
            let one = one_reading n session w id size (omega arith) (ap (λ o. (o, r.1)) go) in
            let more =
              send_records-AllSent rounds (n + 1) session' (total + (format_reading n).1) r.1
                (ap (λ x. length x.session_id) one.next ∙ id) one.frame_size (omega arith)
                (rw (send_records, go) at e) in
            record {
              wire = more.wire ∙ rw (one.wire, one.next) (append_assoc (st.sent sock w.net) _ _);
              id = more.id ∙ ap (λ x. x.session_id) one.next;
              key = more.key ∙ ap (λ x. x.c2s) one.next;
              next = more.next ∙ rw one.next (omega arith);
              host = more.host ∙ one.host;
            }
      ]
    where
      r : Option Session × World Net Host
      r = send_record p sock session (format_reading n).0 (u16 (format_reading n).1) w
