-- ===== src/Protocol/Decimal.antt =====
-- `to_string` and `parse::<i64>` of the standard library, as src/protocol/resp.rs uses them.
use ferrium.Common.{
  ℕ, zero, suc, ◌+◌, ◌-◌, ◌*◌, ◌/◌, ◌%◌, ◌^◌, ◌≤◌, ◌<◌, ◌&&◌, if◌then◌else◌, ltb, leb, ◌==◌, Option,
  none, some, [], ◌∷◌, Bytes, ◌≡◌, arith,
}

-- `negsuc n` is the number -(n + 1).
pub data ℤ : Type 0 where
  pos : ℕ → ℤ
  negsuc : ℕ → ℤ

abbrev pub max_i64 : ℕ
max_i64 = 2 ^ 63 - 1

-- The numbers that an `i64` holds.
abbrev pub IsI64 : ℤ → Type 0
IsI64 (pos n) = n ≤ max_i64
IsI64 (negsuc n) = n ≤ max_i64

-- The digits of a number of at most `fuel` digits, in front of `out`.
unfoldable pub digits : ℕ → ℕ → Bytes → Bytes
digits zero n out = out
digits (suc fuel) n out =
    let more = digits fuel (n / 10) ((b'0' + n % 10) ∷ out) in
    if ltb n 10 then (b'0' + n % 10) ∷ out else more

-- No 64-bit number has more than 20 digits.
unfoldable pub decimal : ℕ → Bytes
decimal n = digits 20 n []

unfoldable pub to_string : ℤ → Bytes
to_string (pos n) = decimal n
to_string (negsuc n) = b'-' ∷ decimal (suc n)

-- The digits are read with an overflow test after each; `limit` is the largest magnitude.
unfoldable pub scan : ℕ → Bytes → ℕ → Option ℕ
scan limit [] n = some n
scan limit (c ∷ s) n =
    let n' = n * 10 + (c - b'0') in
    let rest = scan limit s n' in if leb b'0' c && leb c b'9' && leb n' limit then rest else none

abbrev pub positive : Option ℕ → Option ℤ
positive none = none
positive (some n) = some (pos n)

abbrev pub negative : Option ℕ → Option ℤ
negative none = none
negative (some zero) = some (pos 0)
negative (some (suc n)) = some (negsuc n)

-- `str::parse::<i64>`: an optional sign, then at least one digit.
unfoldable pub parse_i64 : Bytes → Option ℤ
parse_i64 [] = none
parse_i64 (c ∷ []) = positive (scan max_i64 (c ∷ []) 0)
parse_i64 (c ∷ d ∷ s) =
    if c == b'-'
    then negative (scan (2 ^ 63) (d ∷ s) 0)
    else if c == b'+'
    then positive (scan max_i64 (d ∷ s) 0)
    else positive (scan max_i64 (c ∷ d ∷ s) 0)

pub scan-digits :
    (limit fuel n : ℕ) (out : Bytes)
    → n < 10 ^ suc fuel
    → n ≤ limit
    → scan limit (digits (suc fuel) n out) 0 ≡ scan limit out n
unfolding digits scan
scan-digits limit zero n out h k = ground arith
scan-digits limit (suc fuel) n out h k =
    grind (arith, scan-digits limit fuel (n / 10) ((b'0' + n % 10) ∷ out))
