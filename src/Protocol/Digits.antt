-- ===== src/Protocol/Digits.antt =====
-- The decimal texts of src/protocol/resp.rs: numbers are read back, and a text is all digits.
use ferrium.Common.{
  ℕ, zero, suc, ◌+◌, ◌/◌, ◌%◌, ◌^◌, ◌≤◌, ◌<◌, ltb, Bool-cases, inl, inr, some, [], ◌∷◌, Bytes, All,
  ◌≡◌, refl, sym, ap, ◌∙◌, arith,
}
use ferrium.Protocol.Decimal.{
  pos, negsuc, ℤ, IsI64, max_i64, digits, decimal, to_string, scan, scan-digits, positive, negative,
  parse_i64,
}

abbrev pub IsDigit : ℕ → Type 0
IsDigit c = (48 ≤ c) × (c ≤ 57)

digits-IsDigit : (fuel n : ℕ) (out : Bytes) → All IsDigit out → All IsDigit (digits fuel n out)
unfolding digits
digits-IsDigit zero n out h = h
digits-IsDigit (suc fuel) n out h =
    ground (arith, digits-IsDigit fuel (n / 10) ((b'0' + n % 10) ∷ out))

digits_cons :
    (fuel n : ℕ) (out : Bytes)
    → All IsDigit out
    → (c : ℕ) × (s : Bytes) × (digits (suc fuel) n out ≡ c ∷ s) × All IsDigit (c ∷ s)
unfolding digits
digits_cons zero n out h = elim (Bool-cases (ltb n 10)) [
  | inl e ↦ (b'0' + n % 10, out, ground arith, (ground arith, h))
  | inr e ↦ (b'0' + n % 10, out, ground arith, (ground arith, h))
]
digits_cons (suc fuel) n out h =
    let (c, s, e, d) = digits_cons fuel (n / 10) ((b'0' + n % 10) ∷ out) (ground arith) in
    elim (Bool-cases (ltb n 10)) [
      | inl small ↦ (b'0' + n % 10, out, ground arith, (ground arith, h))
      | inr large ↦ (c, s, ground arith, d)
    ]

-- The decimal text of a number: a first digit, and the others.
pub decimal_digits : (n : ℕ) → (c : ℕ) × (s : Bytes) × (decimal n ≡ c ∷ s) × All IsDigit (c ∷ s)
unfolding decimal
decimal_digits n = digits_cons 19 n [] tt

parse_i64-digit :
    (c : ℕ) (s : Bytes) → IsDigit c → parse_i64 (c ∷ s) ≡ positive (scan max_i64 (c ∷ s) 0)
unfolding parse_i64
parse_i64-digit c [] d = refl
parse_i64-digit c (b ∷ s) d = ground arith

parse_i64-minus : (c : ℕ) (s : Bytes) → parse_i64 (45 ∷ c ∷ s) ≡ negative (scan (2 ^ 63) (c ∷ s) 0)
unfolding parse_i64
parse_i64-minus c s = refl

scan-decimal : (limit n : ℕ) → n < 10 ^ 20 → n ≤ limit → scan limit (decimal n) 0 ≡ some n
unfolding decimal scan
scan-decimal limit n h k = scan-digits limit 19 n [] h k

pub parse_i64-to_string : (n : ℤ) → IsI64 n → parse_i64 (to_string n) ≡ some n
unfolding to_string
parse_i64-to_string (pos n) h =
    let (c, s, e, (d, _)) = decimal_digits n in
    let read = scan-decimal max_i64 n (omega arith) h in
    ap parse_i64 e ∙ parse_i64-digit c s d ∙ ap positive (ap (λ t. scan max_i64 t 0) (sym e) ∙ read)
parse_i64-to_string (negsuc n) h =
    let (c, s, e, (d, _)) = decimal_digits (suc n) in
    let read = scan-decimal (2 ^ 63) (suc n) (omega arith) (omega arith) in
    ap (λ t. parse_i64 (45 ∷ t)) e
    ∙ parse_i64-minus c s
    ∙ ap negative (ap (λ t. scan (2 ^ 63) t 0) (sym e) ∙ read)
