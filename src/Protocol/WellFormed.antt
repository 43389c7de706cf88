-- ===== src/Protocol/WellFormed.antt =====
-- src/protocol/resp.rs: whatever frame the decoder returns, the encoder can write it so that it
-- reads back.
use ferrium.Common.{
  ℕ, zero, suc, ◌+◌, ◌≤◌, Bool, if◌then◌else◌, if_intro, ◌==◌, ◌&&◌, List, [], ◌∷◌, ◌++◌, Bytes,
  length, length-append, All, ◌≡◌, refl, sym, ap, arith,
}
use ferrium.Protocol.Decimal.{max_i64}
use ferrium.Protocol.Resp.{
  Frame, count_items, Parsed, ok, incomplete, invalid, extend_line, line, words, bulks,
  parse_inline, parse, frame, decode, decoded, encode,
}
use ferrium.Protocol.RoundTrip.{IsSendable, AreSendable, decode-encode}
use ferrium.Protocol.Progress.{Shrinks-le, line-Shrinks, parse-Shrinks}
use ferrium.Protocol.Sound.{
  Yields, Yields-if, Yields-bind, parse_simple-IsSendable, parse_error-IsSendable,
  parse_integer-IsSendable, parse_bulk-IsSendable, parse_array-IsSendable,
}

-- An inline command has no more words than bytes, and none longer than the line.
length-words : (word s : Bytes) → length (words word s) ≤ length word + length s
unfolding words
length-words [] [] = omega arith
length-words (b ∷ word) [] = omega arith
length-words [] (c ∷ s) = ground (arith, length-words (c ∷ []) s, length-words [] s)
length-words (b ∷ word) (c ∷ s) = ground (
  arith,
  length-words ((b ∷ word) ++ c ∷ []) s,
  length-words [] s,
  length-append (b ∷ word) (c ∷ []),
)

abbrev AreShort : ℕ → List Bytes → Type 0
AreShort n = All (λ w. length w ≤ n)

words-AreShort : (n : ℕ) (word s : Bytes) → length word + length s ≤ n → AreShort n (words word s)
unfolding words
words-AreShort n [] [] h = tt
words-AreShort n (b ∷ word) [] h = (omega arith, tt)
words-AreShort n [] (c ∷ s) h =
    if_intro (AreShort n) (c == b' ') _ _ (λ _. words-AreShort n [] s (omega arith))
      λ _. words-AreShort n (c ∷ []) s (omega arith)
words-AreShort n (b ∷ word) (c ∷ s) h =
    if_intro (AreShort n) (c == b' ') _ _ (λ _. (omega arith, words-AreShort n [] s (omega arith)))
      λ _.
        words-AreShort n ((b ∷ word) ++ c ∷ []) s (omega (arith, length-append (b ∷ word) (c ∷ [])))

pub bulks-AreSendable : (ws : List Bytes) → AreShort max_i64 ws → AreSendable (bulks ws)
unfolding IsSendable
bulks-AreSendable [] h = tt
bulks-AreSendable (w ∷ ws) (h, hs) = (h, bulks-AreSendable ws hs)

pub count_items-bulks : (ws : List Bytes) → count_items (bulks ws) ≡ length ws
count_items-bulks [] = refl
count_items-bulks (w ∷ ws) = ap suc (count_items-bulks ws)

line-length : (s : Bytes) → Yields (λ l. length l ≤ length s) (line s)
unfolding line
line-length [] = tt
line-length (b ∷ []) = tt
line-length (b ∷ c ∷ s) =
    Yields-if (λ l. length l ≤ length (b ∷ c ∷ s)) (b == 13 && c == 10) _ _ (λ _. omega arith)
      λ _. longer (line (c ∷ s)) (line-length (c ∷ s))
  where
    longer :
        (m : Parsed (Bytes × Bytes))
        → Yields (λ l. length l ≤ length (c ∷ s)) m
        → Yields (λ l. length l ≤ length (b ∷ c ∷ s)) (extend_line b m)
    longer (ok (l, rest)) h = omega arith
    longer incomplete h = tt
    longer (invalid msg) h = tt

parse_inline-IsSendable : (s : Bytes) → length s ≤ max_i64 → Yields IsSendable (parse_inline s)
unfolding parse_inline IsSendable
parse_inline-IsSendable s h =
    Yields-bind (λ l. length l ≤ length s) IsSendable s (line s) _
      (Shrinks-le 2 0 s s (line s) (omega arith) (line-Shrinks s)) (line-length s)
      λ l rest _ k. (
        omega (arith, count_items-bulks (words [] l), length-words [] l),
        bulks-AreSendable (words [] l) (words-AreShort max_i64 [] l (omega arith)),
      )

parse-IsSendable : (fuel : ℕ) (s : Bytes) → length s ≤ max_i64 → Yields IsSendable (parse fuel s)
unfolding parse
parse-IsSendable zero s h = tt
parse-IsSendable (suc fuel) [] h = tt
parse-IsSendable (suc fuel) (tag ∷ s) h = choose (tag == b'+') _ _ (parse_simple-IsSendable s) (
    choose (tag == b'-') _ _ (parse_error-IsSendable s) (
      choose (tag == b':') _ _ (parse_integer-IsSendable s) (
        choose (tag == b'$') _ _ (parse_bulk-IsSendable s) (
          choose (tag == b'*') _ _
            (parse_array-IsSendable (parse fuel)
              (λ t. Shrinks-le 1 0 t t (parse fuel t) (omega arith) (parse-Shrinks fuel t))
              (parse-IsSendable fuel) s (omega arith))
            (parse_inline-IsSendable (tag ∷ s) h)))))
  where
    choose :
        (b : Bool) (x y : Parsed (Frame × Bytes))
        → Yields IsSendable x
        → Yields IsSendable y
        → Yields IsSendable (if b then x else y)
    choose b x y h k = Yields-if IsSendable b x y (λ _. h) (λ _. k)

-- A frame that the decoder takes from a buffer of at most 2^63 - 1 bytes is well formed: its
-- strings are UTF-8 without a line end, its numbers, lengths and counts fit in an i64. Encoded
-- again, with any bytes behind it, it decodes to itself and leaves those bytes.
pub decode-IsSendable :
    (src rest : Bytes) (f : Frame)
    → length src ≤ max_i64
    → decode src ≡ (frame f, rest)
    → IsSendable f × ((more : Bytes) → decode (encode f ++ more) ≡ (frame f, more))
unfolding decode
decode-IsSendable src rest f h e =
    let sendable =
      of_parse (parse (suc (length src)) src) (parse-IsSendable (suc (length src)) src h) e in
    (sendable, λ more. decode-encode f more sendable)
  where
    of_parse :
        (m : Parsed (Frame × Bytes))
        → Yields IsSendable m
        → decoded src m ≡ (frame f, rest)
        → IsSendable f
    of_parse (ok (x, r)) k p = let same : x ≡ f = cc in rw (sym same) k
    of_parse incomplete k p = cc
    of_parse (invalid msg) k p = cc
