-- ===== src/Protocol/RoundTrip.antt =====
-- src/protocol/resp.rs: what the encoder writes, the decoder reads back.
use ferrium.Common.{
  str_eq, ℕ, zero, suc, ◌≤◌, ◌<◌, Bool, true, false, ◌&&◌, if◌then◌else◌, ◌==◌, [], ◌∷◌, ◌++◌,
  append_assoc, Bytes, length, length-append, All, ◌≡◌, refl, ap, ◌∙◌, arith, take-append,
  drop-append,
}
use ferrium.Protocol.Utf8.{is_utf8}
use ferrium.Protocol.Decimal.{ℤ, pos, negsuc, IsI64, max_i64, decimal, to_string, scan, parse_i64}
use ferrium.Protocol.Digits.{IsDigit, decimal_digits, parse_i64-to_string}
use ferrium.Protocol.Resp.{
  Frame, simple, error, integer, bulk, null, array, Frames, end, item, crlf, count_items, encode,
  encode_items, Parsed, ok, line, take_bytes, parse_int, read_string, read_bulk, parse_bulk,
  parse_simple, parse_error, parse_integer, parse_items, parse_array, read_items, parse, frame,
  decode,
}

-- A `\r\n` stands in the string.
unfoldable pub has_crlf : Bytes → Bool
has_crlf [] = false
has_crlf (b ∷ []) = false
has_crlf (b ∷ c ∷ s) = let rest = has_crlf (c ∷ s) in if b == 13 && c == 10 then true else rest

line-crlf : (s rest : Bytes) → has_crlf s ≡ false → line (s ++ (crlf ++ rest)) ≡ ok (s, rest)
unfolding line has_crlf
line-crlf [] rest h = refl
line-crlf (b ∷ []) rest h = ground arith
line-crlf (b ∷ c ∷ s) rest h = ground (arith, line-crlf (c ∷ s) rest)

has_crlf-digits : (s : Bytes) → All IsDigit s → has_crlf s ≡ false
unfolding has_crlf
has_crlf-digits [] h = refl
has_crlf-digits (b ∷ []) h = refl
has_crlf-digits (b ∷ c ∷ s) h = ground (arith, has_crlf-digits (c ∷ s))

has_crlf-decimal : (n : ℕ) → has_crlf (decimal n) ≡ false
has_crlf-decimal n =
    let (c, s, e, d) = decimal_digits n in ap has_crlf e ∙ has_crlf-digits (c ∷ s) d

has_crlf_minus : (c : ℕ) (s : Bytes) → has_crlf (45 ∷ c ∷ s) ≡ has_crlf (c ∷ s)
unfolding has_crlf
has_crlf_minus c s = refl

has_crlf-to_string : (n : ℤ) → has_crlf (to_string n) ≡ false
unfolding to_string
has_crlf-to_string (pos n) = has_crlf-decimal n
has_crlf-to_string (negsuc n) =
    let (c, s, e, d) = decimal_digits (suc n) in
    ap (λ t. has_crlf (45 ∷ t)) e ∙ has_crlf_minus c s ∙ has_crlf-digits (c ∷ s) d

parse_int-to_string : (n : ℤ) → IsI64 n → parse_int (to_string n) ≡ ok n
unfolding parse_int
parse_int-to_string n h = ground (arith, parse_i64-to_string n h)

-- What the encoder can write so that it reads back: the strings are UTF-8, as Rust's are, and hold
-- no line end; numbers and lengths fit in an i64.
unfoldable mutual
  pub IsSendable : Frame → Type 0
  IsSendable (simple s) = (is_utf8 s ≡ true) × (has_crlf s ≡ false)
  IsSendable (error s) = (is_utf8 s ≡ true) × (has_crlf s ≡ false)
  IsSendable (integer n) = IsI64 n
  IsSendable (bulk payload) = length payload ≤ max_i64
  IsSendable null = Unit
  IsSendable (array items) = (count_items items ≤ max_i64) × AreSendable items

  pub AreSendable : Frames → Type 0
  AreSendable end = Unit
  AreSendable (item x xs) = IsSendable x × AreSendable xs

read_string-crlf :
    (s rest : Bytes)
    → is_utf8 s ≡ true
    → has_crlf s ≡ false
    → read_string (s ++ crlf ++ rest) ≡ ok (s, rest)
unfolding read_string
read_string-crlf s rest u h = rw (append_assoc s crlf rest, line-crlf s rest h, u) refl

parse_integer-to_string :
    (n : ℤ) (rest : Bytes)
    → IsI64 n
    → parse_integer (to_string n ++ crlf ++ rest) ≡ ok (integer n, rest)
unfolding parse_integer
parse_integer-to_string n rest h =
    rw
      (
        append_assoc (to_string n) crlf rest,
        line-crlf (to_string n) rest (has_crlf-to_string n),
        parse_int-to_string n h,
      )
      refl

take_bytes-append : (s rest : Bytes) → take_bytes (length s) (s ++ rest) ≡ ok (s, rest)
unfolding take_bytes
take_bytes-append s rest =
    ground (arith, length-append s rest, take-append s rest, drop-append s rest)

read_bulk-append :
    (s rest : Bytes) → read_bulk (pos (length s)) (s ++ (crlf ++ rest)) ≡ ok (bulk s, rest)
unfolding read_bulk str_eq
read_bulk-append s rest = rw (take_bytes-append s (crlf ++ rest), take_bytes-append crlf rest) refl

-- A length, as bulk strings and arrays have it in front.
line-decimal : (n : ℕ) (rest : Bytes) → line (decimal n ++ (crlf ++ rest)) ≡ ok (decimal n, rest)
line-decimal n rest = line-crlf (decimal n) rest (has_crlf-decimal n)

parse_int-decimal : (n : ℕ) → n ≤ max_i64 → parse_int (decimal n) ≡ ok (pos n)
unfolding to_string
parse_int-decimal n h = parse_int-to_string (pos n) h

parse_bulk-append :
    (s rest : Bytes)
    → length s ≤ max_i64
    → parse_bulk (decimal (length s) ++ crlf ++ s ++ crlf ++ rest) ≡ ok (bulk s, rest)
unfolding parse_bulk
parse_bulk-append s rest h =
    rw
      (
        append_assoc (decimal (length s) ++ crlf ++ s) crlf rest,
        append_assoc (decimal (length s) ++ crlf) s (crlf ++ rest),
        append_assoc (decimal (length s)) crlf (s ++ (crlf ++ rest)),
        line-decimal (length s) (s ++ (crlf ++ rest)),
        parse_int-decimal (length s) h,
      )
      (read_bulk-append s rest)

parse_array-append :
    (parse_one : Bytes → Parsed (Frame × Bytes)) (xs : Frames) (s rest : Bytes)
    → count_items xs ≤ max_i64
    → parse_items parse_one (count_items xs) (s ++ rest) ≡ ok (xs, rest)
    → parse_array parse_one (decimal (count_items xs) ++ crlf ++ s ++ rest) ≡ ok (array xs, rest)
unfolding parse_array read_items
parse_array-append parse_one xs s rest h e =
    rw
      (
        append_assoc (decimal (count_items xs) ++ crlf) s rest,
        append_assoc (decimal (count_items xs)) crlf (s ++ rest),
        line-decimal (count_items xs) (s ++ rest),
        parse_int-decimal (count_items xs) h,
        e,
      )
      refl

-- `-1` for the length of a null.
parse_bulk-null : (rest : Bytes) → parse_bulk (45 ∷ 49 ∷ 13 ∷ 10 ∷ rest) ≡ ok (null, rest)
unfolding parse_bulk line parse_int parse_i64 scan read_bulk
parse_bulk-null rest = refl

encode_nonempty : (x : Frame) → 0 < length (encode x)
unfolding encode
encode_nonempty (simple s) = omega arith
encode_nonempty (error s) = omega arith
encode_nonempty (integer n) = omega arith
encode_nonempty (bulk s) = omega arith
encode_nonempty null = omega arith
encode_nonempty (array xs) = omega arith

mutual
  unfolding encode parse IsSendable parse_items parse_simple parse_error

  parse-encode_lem :
      (x : Frame) (fuel : ℕ) (rest : Bytes)
      → IsSendable x
      → length (encode x) ≤ fuel
      → parse fuel (encode x ++ rest) ≡ ok (x, rest)
  parse-encode_lem x zero rest h k = absurd (omega (arith, encode_nonempty x))
  parse-encode_lem (simple s) (suc fuel) rest (u, h) k = rw (read_string-crlf s rest u h) refl
  parse-encode_lem (error s) (suc fuel) rest (u, h) k = rw (read_string-crlf s rest u h) refl
  parse-encode_lem (integer n) (suc fuel) rest h k = parse_integer-to_string n rest h
  parse-encode_lem (bulk s) (suc fuel) rest h k = parse_bulk-append s rest h
  parse-encode_lem null (suc fuel) rest h k = parse_bulk-null rest
  parse-encode_lem (array xs) (suc fuel) rest (small, h) k =
      parse_array-append (parse fuel) xs (encode_items xs) rest small (
        parse_items-encode_lem xs fuel rest h (
          omega (arith, length-append (b'*' ∷ decimal (count_items xs) ++ crlf) (encode_items xs))))

  parse_items-encode_lem :
      (xs : Frames) (fuel : ℕ) (rest : Bytes)
      → AreSendable xs
      → length (encode_items xs) ≤ fuel
      → parse_items (parse fuel) (count_items xs) (encode_items xs ++ rest) ≡ ok (xs, rest)
  parse_items-encode_lem end fuel rest h k = refl
  parse_items-encode_lem (item x xs) fuel rest (h, hs) k =
      let l = length-append (encode x) (encode_items xs) in
      rw
        (
          append_assoc (encode x) (encode_items xs) rest,
          parse-encode_lem x fuel (encode_items xs ++ rest) h (omega arith),
          parse_items-encode_lem xs fuel rest hs (omega arith),
        )
        refl

-- Decoding the bytes of an encoded frame, with any bytes behind them, gives the frame back and
-- leaves those bytes, provided its strings are UTF-8 without a line end and its numbers, lengths
-- and counts fit in an i64.
pub decode-encode :
    (x : Frame) (rest : Bytes) → IsSendable x → decode (encode x ++ rest) ≡ (frame x, rest)
unfolding decode
decode-encode x rest h =
    let l = length-append (encode x) rest in
    let enough : length (encode x) ≤ suc (length (encode x ++ rest)) = omega arith in
    ground (arith, parse-encode_lem x (suc (length (encode x ++ rest))) rest h enough)

-- An error frame whose text has a line end behind a UTF-8 part without one is read back as an
-- error with that part only; the rest of the text stays in the input.
pub decode-encode_crlf :
    (s t : Bytes)
    → is_utf8 s ≡ true
    → has_crlf s ≡ false
    → decode (encode (error (s ++ crlf ++ t))) ≡ (frame (error s), t ++ crlf)
unfolding encode IsSendable
decode-encode_crlf s t u h =
    ap decode (append_assoc (b'-' ∷ s ++ crlf) t crlf) ∙ decode-encode (error s) (t ++ crlf) (u, h)
