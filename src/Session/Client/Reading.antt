-- ===== src/Session/Client/Reading.antt =====
-- The text of a reading fits the buffer of 80 bytes that pqc_session.c formats it into.
use pqc_esp32s3_benchmarks.Prelude.{
  ℕ, zero, suc, ◌+◌, ◌*◌, ◌/◌, ◌%◌, ◌^◌, ◌≤◌, ◌<◌, ◌≡◌, true, [], ◌∷◌, ◌++◌, arith, length,
  length-append, decimal, decimal_fuel, ltb, Bool-cases, inl, inr, take-all, string_bytes,
}
use pqc_esp32s3_benchmarks.Session.Client.{reading, format_reading}

tens : ℕ → ℕ
tens zero = 1
tens (suc d) = 10 * tens d

length-decimal_fuel : (d f n : ℕ) → n < 10 * tens d → length (decimal_fuel f n) ≤ suc d
unfolding decimal_fuel tens
length-decimal_fuel d zero n h = omega arith
length-decimal_fuel zero (suc f) n h = let e : ltb n 10 ≡ true = ground arith in rw e (omega arith)
length-decimal_fuel (suc d) (suc f) n h = elim (Bool-cases (ltb n 10)) [
  | inl e ↦ rw e (omega arith)
  | inr e ↦
      let higher = length-decimal_fuel d f (n / 10) (omega arith) in
      rw e (omega (arith, higher, length-append (decimal_fuel f (n / 10)) ((48 + n % 10) ∷ [])))
]

length-decimal : (n : ℕ) → n < 10 ^ 10 → length (decimal n) ≤ 10
unfolding decimal tens
length-decimal n h = length-decimal_fuel 9 (suc n) n (omega arith)

-- For a record number as large as the code can count, nothing of the text is cut off.
pub length-reading : (n : ℕ) → n + 810 < 2 ^ 31 → length (reading n) < 80
unfolding reading
length-reading n h =
    let a = length-decimal n (omega arith) in
    let b = length-decimal (810 + n) (omega arith) in
    omega (
      arith,
      length-append (decimal n) (
          string_bytes ",\"co2\":" ++ (decimal (810 + n) ++ string_bytes ",\"t\":22.4,\"rh\":47}")),
      length-append (decimal (810 + n)) (string_bytes ",\"t\":22.4,\"rh\":47}"),
    )

pub format_reading-whole : (n : ℕ) → n + 810 < 2 ^ 31 → (format_reading n).0 ≡ reading n
format_reading-whole n h = take-all 79 (reading n) (omega (arith, length-reading n h))
