-- ===== src/Protocol/Streaming.antt =====
-- src/protocol/resp.rs: what the decoder has read does not change when more bytes arrive.
use ferrium.Common.{
  ℕ, zero, suc, ◌≤◌, Bool, true, false, if◌then◌else◌, if_intro, ◌==◌, ◌&&◌, leb, [], ◌∷◌, ◌++◌,
  Bytes, length, length-append, take, drop, ◌≡◌, refl, ap, arith, str_eq,
}
use ferrium.Protocol.Utf8.{is_utf8}
use ferrium.Protocol.Decimal.{ℤ, pos, negsuc}
use ferrium.Protocol.Resp.{
  Frame, crlf, Parsed, ok, incomplete, invalid, ◌>>=◌, extend_line, line, take_bytes, parse_int,
  read_string, parse_simple, parse_error, parse_integer, read_bulk, parse_bulk, parse_items,
  read_items, parse_array, parse_inline, parse, frame, partial, protocol_error, decode, Decoded,
  decoded,
}
use ferrium.Protocol.Progress.{parse_fuel}

module _ (t : Bytes) where
  -- The second result is the first with `t` behind the rest, unless the first waits for more.
  abbrev Extends {ℓ} : {A : Type ℓ} → Parsed (A × Bytes) → Parsed (A × Bytes) → Type ℓ
  Extends {A = A} (ok (a, rest)) m = m ≡ ok (a, rest ++ t)
  Extends incomplete m = Unit
  Extends (invalid msg) m = m ≡ invalid msg

  Extends-bind {ℓ κ} :
      {A : Type ℓ} {B : Type κ} (m m' : Parsed (A × Bytes)) (f : A × Bytes → Parsed (B × Bytes))
      → Extends m m'
      → ((a : A) (rest : Bytes) → Extends (f (a, rest)) (f (a, rest ++ t)))
      → Extends (m >>= f) (m' >>= f)
  Extends-bind (ok (a, rest)) m' f h k = rw h (k a rest)
  Extends-bind incomplete m' f h k = tt
  Extends-bind (invalid msg) m' f h k = rw h refl

  Extends-then {ℓ κ} :
      {A : Type ℓ} {B : Type κ} (m : Parsed A) (f g : A → Parsed (B × Bytes))
      → ((a : A) → Extends (f a) (g a))
      → Extends (m >>= f) (m >>= g)
  Extends-then (ok a) f g k = k a
  Extends-then incomplete f g k = tt
  Extends-then (invalid msg) f g k = refl

  Extends-if {ℓ} :
      {A : Type ℓ} (b : Bool) (x y x' y' : Parsed (A × Bytes))
      → Extends x x'
      → Extends y y'
      → Extends (if b then x else y) (if b then x' else y')
  Extends-if true x y x' y' h k = h
  Extends-if false x y x' y' h k = k

  Extends-extend_line :
      (b : ℕ) (m m' : Parsed (Bytes × Bytes))
      → Extends m m'
      → Extends (extend_line b m) (extend_line b m')
  Extends-extend_line b (ok (l, rest)) m' h = rw h refl
  Extends-extend_line b incomplete m' h = tt
  Extends-extend_line b (invalid msg) m' h = rw h refl

  line-Extends : (s : Bytes) → Extends (line s) (line (s ++ t))
  unfolding line
  line-Extends [] = tt
  line-Extends (b ∷ []) = tt
  line-Extends (b ∷ c ∷ s) =
      Extends-if (b == 13 && c == 10) _ _ _ _ refl
        (Extends-extend_line b (line (c ∷ s)) (line (c ∷ s ++ t)) (line-Extends (c ∷ s)))

  take-append_left : (n : ℕ) (s : Bytes) → n ≤ length s → take n (s ++ t) ≡ take n s
  take-append_left zero s h = refl
  take-append_left (suc n) [] h = absurd (omega arith)
  take-append_left (suc n) (b ∷ s) h = ap (λ r. b ∷ r) (take-append_left n s (omega arith))

  drop-append_left : (n : ℕ) (s : Bytes) → n ≤ length s → drop n (s ++ t) ≡ drop n s ++ t
  drop-append_left zero s h = refl
  drop-append_left (suc n) [] h = absurd (omega arith)
  drop-append_left (suc n) (b ∷ s) h = drop-append_left n s (omega arith)

  take_bytes-Extends : (n : ℕ) (s : Bytes) → Extends (take_bytes n s) (take_bytes n (s ++ t))
  unfolding take_bytes
  take_bytes-Extends n s =
      if_intro (λ m. Extends m (take_bytes n (s ++ t))) (leb n (length s)) _ _
        (λ h. ground (arith, length-append s t, take-append_left n s, drop-append_left n s)) λ _. tt

  read_string-Extends : (s : Bytes) → Extends (read_string s) (read_string (s ++ t))
  unfolding read_string
  read_string-Extends s =
      Extends-bind (line s) (line (s ++ t)) _ (line-Extends s)
        λ l rest. Extends-if (is_utf8 l) _ _ _ _ refl refl

  parse_simple-Extends : (s : Bytes) → Extends (parse_simple s) (parse_simple (s ++ t))
  unfolding parse_simple
  parse_simple-Extends s = Extends-bind (read_string s) _ _ (read_string-Extends s) λ l rest. refl

  parse_error-Extends : (s : Bytes) → Extends (parse_error s) (parse_error (s ++ t))
  unfolding parse_error
  parse_error-Extends s = Extends-bind (read_string s) _ _ (read_string-Extends s) λ l rest. refl

  parse_integer-Extends : (s : Bytes) → Extends (parse_integer s) (parse_integer (s ++ t))
  unfolding parse_integer
  parse_integer-Extends s =
      Extends-bind (line s) _ _ (line-Extends s) λ l rest. Extends-then (parse_int l) _ _ λ n. refl

  read_bulk-Extends : (n : ℤ) (s : Bytes) → Extends (read_bulk n s) (read_bulk n (s ++ t))
  unfolding read_bulk
  read_bulk-Extends (negsuc k) s = refl
  read_bulk-Extends (pos len) s =
      Extends-bind (take_bytes len s) _ _ (take_bytes-Extends len s) λ payload s'.
        Extends-bind (take_bytes 2 s') _ _ (take_bytes-Extends 2 s')
          λ ending s''. Extends-if (str_eq ending crlf) _ _ _ _ refl refl

  parse_bulk-Extends : (s : Bytes) → Extends (parse_bulk s) (parse_bulk (s ++ t))
  unfolding parse_bulk
  parse_bulk-Extends s =
      Extends-bind (line s) _ _ (line-Extends s)
        λ l rest. Extends-then (parse_int l) _ _ λ n. read_bulk-Extends n rest

  parse_inline-Extends : (s : Bytes) → Extends (parse_inline s) (parse_inline (s ++ t))
  unfolding parse_inline
  parse_inline-Extends s = Extends-bind (line s) _ _ (line-Extends s) λ l rest. refl

  module _ (p : Bytes → Parsed (Frame × Bytes))
      (ih : (s : Bytes) → Extends (p s) (p (s ++ t))) where
    parse_items-Extends :
        (n : ℕ) (s : Bytes) → Extends (parse_items p n s) (parse_items p n (s ++ t))
    unfolding parse_items
    parse_items-Extends zero s = refl
    parse_items-Extends (suc n) s =
        Extends-bind (p s) _ _ (ih s)
          λ x s'. Extends-bind (parse_items p n s') _ _ (parse_items-Extends n s') λ xs s''. refl

    read_items-Extends : (n : ℤ) (s : Bytes) → Extends (read_items p n s) (read_items p n (s ++ t))
    unfolding read_items
    read_items-Extends (negsuc k) s = refl
    read_items-Extends (pos len) s =
        Extends-bind (parse_items p len s) _ _ (parse_items-Extends len s) λ xs s'. refl

    parse_array-Extends : (s : Bytes) → Extends (parse_array p s) (parse_array p (s ++ t))
    unfolding parse_array
    parse_array-Extends s =
        Extends-bind (line s) _ _ (line-Extends s)
          λ l rest. Extends-then (parse_int l) _ _ λ n. read_items-Extends n rest

  parse-Extends : (fuel : ℕ) (s : Bytes) → Extends (parse fuel s) (parse fuel (s ++ t))
  unfolding parse
  parse-Extends zero s = tt
  parse-Extends (suc fuel) [] = tt
  parse-Extends (suc fuel) (tag ∷ s) = Extends-if (tag == b'+') _ _ _ _ (parse_simple-Extends s) (
      Extends-if (tag == b'-') _ _ _ _ (parse_error-Extends s) (
        Extends-if (tag == b':') _ _ _ _ (parse_integer-Extends s) (
          Extends-if (tag == b'$') _ _ _ _ (parse_bulk-Extends s) (
            Extends-if (tag == b'*') _ _ _ _
              (parse_array-Extends (parse fuel) (parse-Extends fuel) s)
              (parse_inline-Extends (tag ∷ s))))))

-- What is left of the input when `t` follows it.
abbrev pub AfterMore : Bytes → Decoded × Bytes → Decoded × Bytes → Type 0
AfterMore t (frame f, rest) r = r ≡ (frame f, rest ++ t)
AfterMore t (partial, rest) r = Unit
AfterMore t (protocol_error msg, rest) r = r ≡ (protocol_error msg, rest ++ t)

-- Bytes that arrive later do not change a decoding: if an input gives a frame or an error, the
-- input with more bytes behind it gives the same, with those bytes left behind.
pub decode-append : (s t : Bytes) → AfterMore t (decode s) (decode (s ++ t))
unfolding decode
decode-append s t =
    let fuel = suc (length (s ++ t)) in
    of_parse (parse (suc (length s)) s) (parse fuel (s ++ t)) (
      rw (parse_fuel (suc (length s)) fuel s (omega arith) (omega (arith, length-append s t)))
        (parse-Extends t fuel s))
  where
    of_parse :
        (m m' : Parsed (Frame × Bytes))
        → Extends t m m'
        → AfterMore t (decoded s m) (decoded (s ++ t) m')
    of_parse (ok (f, rest)) m' h = rw h refl
    of_parse incomplete m' h = tt
    of_parse (invalid msg) m' h = rw h refl
