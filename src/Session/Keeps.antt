-- ===== src/Session/Keeps.antt =====
-- The static buffers of pqc_session.c keep their sizes and hold bytes, whatever a part of the client
-- does: rules for runs, and what `read_frame` stores.
use pqc_esp32s3_benchmarks.Prelude.{
  ℕ, Bool, true, false, ℤ, if◌then◌else◌, Option, Bool-cases, inl, inr, IsBytes, IsBytes-append,
  ltb, Option-cases,
}
use pqc_esp32s3_benchmarks.Platform.{IsStream, Sockets}
use pqc_esp32s3_benchmarks.Session.Layout.{World, IsWorld, Run, ◌>>=◌}
use pqc_esp32s3_benchmarks.Session.Frames.{recv_all, read_payload, read_frame}
use pqc_esp32s3_benchmarks.Session.Frames.Loops.{recv_all-Gets}

-- A run that leaves the buffers well formed, whether it succeeds or not.
abbrev pub Keeps : {Net Host A : Type 0} → Run Net Host A → Type 0
Keeps {Net} {Host} m = (w : World Net Host) → IsWorld w → IsWorld (m w).1

pub >>=-Keeps :
    {Net Host A B : Type 0} (m : Run Net Host A) (f : A → Run Net Host B)
    → Keeps m
    → ((a : A) → Keeps (f a))
    → Keeps (m >>= f)
>>=-Keeps m f km kf w sized = elim (Option-cases (m w).0) [
  | inl e ↦ rw (e, ◌>>=◌) (km w sized)
  | inr (a, e) ↦ rw (e, ◌>>=◌) (kf a (m w).1 (km w sized))
]

pub IsWorld-if :
    {Net Host A : Type 0} (t : Bool) (x y : Option A × World Net Host)
    → IsWorld x.1
    → IsWorld y.1
    → IsWorld (if t then x else y).1
IsWorld-if true x y h k = h
IsWorld-if false x y h k = k

module _ {Net : Type 0} (s : Sockets Net) (st : IsStream s) where
  recv_all-IsBytes : (k : ℤ) (len : ℕ) (net : Net) → IsBytes (recv_all s k len net).1
  recv_all-IsBytes k len net =
      (IsBytes-append (recv_all s k len net).1 (st.pending k (recv_all s k len net).2)
        (rw (recv_all-Gets s st k len net).whole (st.pending-IsBytes k net))).0

  read_payload-IsBytes :
      (k : ℤ) (capacity type len : ℕ) (net : Net)
      → IsBytes (read_payload s k capacity type len net).bytes
  unfolding read_payload
  read_payload-IsBytes k capacity type len net = elim (Bool-cases (ltb capacity len)) [
    | inl e ↦ rw e tt
    | inr e ↦ rw e (recv_all-IsBytes k len net)
  ]

  -- What `read_frame` stores are bytes, also where it gives up.
  pub read_frame-IsBytes :
      (k : ℤ) (capacity : ℕ) (net : Net) → IsBytes (read_frame s k capacity net).bytes
  unfolding read_frame
  read_frame-IsBytes k capacity net = elim (Bool-cases (recv_all s k 3 net).0) [
    | inl e ↦ rw e (read_payload-IsBytes k capacity _ _ (recv_all s k 3 net).2)
    | inr e ↦ rw e tt
  ]
