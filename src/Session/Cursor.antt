-- ===== src/Session/Cursor.antt =====
-- The way pqc_session.c fills a message buffer: copies at an index that moves on.
use pqc_esp32s3_benchmarks.Prelude.{
  ℕ, ◌+◌, ◌≡◌, refl, ◌∙◌, ap, sym, List, ◌++◌, append_assoc, append-nil, arith, length, take, drop,
  blit, blit-append, take-all, length-append, length-drop, eq-nil_of_length, take-append_of_eq,
}

-- A buffer that is being filled, and the index `i` of the next byte.
pub record Cursor : Type 0 where
  pub buf : List ℕ
  pub at : ℕ

-- `memcpy(buf + i, src, n); i += n;`, also for a single byte.
abbrev pub put : List ℕ → ℕ → Cursor → Cursor
put src n c = record { buf = blit c.buf c.at (take n src); at = c.at + n }

-- A cursor that has written `text` and has `room` bytes left.
pub record Filled (text : List ℕ) (room : ℕ) (c : Cursor) : Type 0 where
  pub rest : List ℕ
  pub buffer : c.buf ≡ text ++ rest
  pub index : c.at ≡ length text
  pub left : length rest ≡ room

pub put-Filled :
    (src : List ℕ) (n room : ℕ) {text : List ℕ} {room' : ℕ} {c : Cursor}
    → length src ≡ n
    → room' ≡ n + room
    → Filled text room' c
    → Filled (text ++ src) room (put src n c)
put-Filled src n room {text} {room'} {c} size fits f = record {
  rest = drop n f.rest;
  buffer =
      rw (take-all n src (omega arith), f.buffer, f.index)
        (blit-append text src f.rest (omega (arith, f.left))
          ∙ (sym (append_assoc text src _) ∙ ap (λ k. (text ++ src) ++ drop k f.rest) size));
  index = omega (arith, f.index, length-append text src);
  left = omega (arith, f.left, length-drop n f.rest);
}

pub text-of : {text : List ℕ} {c : Cursor} {room : ℕ} → Filled text room c → take c.at c.buf ≡ text
text-of {text} {c} f = rw (f.buffer, f.index) (take-append_of_eq (length text) text f.rest refl)

pub full-of : {text : List ℕ} {c : Cursor} → Filled text 0 c → c.buf ≡ text
full-of f = f.buffer ∙ rw (eq-nil_of_length f.rest f.left, append-nil)

pub front-of :
    (n : ℕ) {text : List ℕ} {c : Cursor} {room : ℕ}
    → Filled text room c
    → length text ≡ n
    → take n c.buf ≡ text
front-of n {text} f e = rw f.buffer (take-append_of_eq n text f.rest e)

pub size-of :
    {text : List ℕ} {c : Cursor} {room : ℕ} → Filled text room c → length c.buf ≡ length text + room
size-of {text} f = ap length f.buffer ∙ omega (arith, length-append text f.rest, f.left)
