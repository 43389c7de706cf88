-- ===== src/Protocol/Progress.antt =====
-- src/protocol/resp.rs: what the decoder consumes, and that its fuel suffices.
use ferrium.Common.{
  ℕ, zero, suc, ◌+◌, ◌≤◌, ◌<◌, Bool, true, false, if◌then◌else◌, if_intro, ◌==◌, ◌&&◌, leb, [], ◌∷◌,
  Bytes, length, length-drop, ◌≡◌, refl, ap, arith, str_eq,
}
use ferrium.Protocol.Utf8.{is_utf8}
use ferrium.Protocol.Decimal.{ℤ, pos, negsuc}
use ferrium.Protocol.Resp.{
  Frame, array, item, crlf, Parsed, ok, incomplete, invalid, ◌>>=◌, extend_line, line, take_bytes,
  parse_int, read_string, parse_simple, parse_error, parse_integer, read_bulk, parse_bulk,
  parse_items, read_items, parse_array, parse_inline, parse, frame, decode, decoded,
}

-- A reader that succeeds on `s` leaves at least `d` bytes fewer.
abbrev pub Shrinks {ℓ} : {A : Type ℓ} → ℕ → Bytes → Parsed (A × Bytes) → Type 0
Shrinks d s (ok (a, rest)) = length rest + d ≤ length s
Shrinks d s incomplete = Unit
Shrinks d s (invalid msg) = Unit

module _ {ℓ κ} {A : Type ℓ} {B : Type κ} where
  Shrinks-bind :
      (d : ℕ) (s : Bytes) (m : Parsed (A × Bytes)) (f : A × Bytes → Parsed (B × Bytes))
      → Shrinks d s m
      → ((a : A) (rest : Bytes) → length rest + d ≤ length s → Shrinks d s (f (a, rest)))
      → Shrinks d s (m >>= f)
  Shrinks-bind d s (ok (a, rest)) f h k = k a rest h
  Shrinks-bind d s incomplete f h k = tt
  Shrinks-bind d s (invalid msg) f h k = tt

  -- A value that is read without the cursor.
  Shrinks-then :
      (d : ℕ) (s : Bytes) (m : Parsed A) (f : A → Parsed (B × Bytes))
      → ((a : A) → Shrinks d s (f a))
      → Shrinks d s (m >>= f)
  Shrinks-then d s (ok a) f k = k a
  Shrinks-then d s incomplete f k = tt
  Shrinks-then d s (invalid msg) f k = tt

  bind-agree :
      (s : Bytes) (m : Parsed (A × Bytes)) (f g : A × Bytes → Parsed B)
      → Shrinks 0 s m
      → ((a : A) (rest : Bytes) → length rest ≤ length s → f (a, rest) ≡ g (a, rest))
      → (m >>= f) ≡ (m >>= g)
  bind-agree s (ok (a, rest)) f g h k = k a rest (omega arith)
  bind-agree s incomplete f g h k = refl
  bind-agree s (invalid msg) f g h k = refl

  then-agree : (m : Parsed A) (f g : A → Parsed B) → ((a : A) → f a ≡ g a) → (m >>= f) ≡ (m >>= g)
  then-agree (ok a) f g k = k a
  then-agree incomplete f g k = refl
  then-agree (invalid msg) f g k = refl

pub Shrinks-le {ℓ} :
    {A : Type ℓ} (d e : ℕ) (s t : Bytes) (m : Parsed (A × Bytes))
    → length s + e ≤ length t + d
    → Shrinks d s m
    → Shrinks e t m
Shrinks-le d e s t (ok (a, rest)) h k = omega arith
Shrinks-le d e s t incomplete h k = tt
Shrinks-le d e s t (invalid msg) h k = tt

Shrinks-if {ℓ} :
    {A : Type ℓ} (d : ℕ) (s : Bytes) (b : Bool) (x y : Parsed (A × Bytes))
    → Shrinks d s x
    → Shrinks d s y
    → Shrinks d s (if b then x else y)
Shrinks-if d s true x y h k = h
Shrinks-if d s false x y h k = k

Shrinks-extend_line :
    (b : ℕ) (d : ℕ) (s : Bytes) (m : Parsed (Bytes × Bytes))
    → Shrinks d s m
    → Shrinks d (b ∷ s) (extend_line b m)
Shrinks-extend_line b d s (ok (l, rest)) h = omega arith
Shrinks-extend_line b d s incomplete h = tt
Shrinks-extend_line b d s (invalid msg) h = tt

-- A line ends in two bytes that are not part of it.
pub line-Shrinks : (s : Bytes) → Shrinks 2 s (line s)
unfolding line
line-Shrinks [] = tt
line-Shrinks (b ∷ []) = tt
line-Shrinks (b ∷ c ∷ s) =
    Shrinks-if 2 (b ∷ c ∷ s) (b == 13 && c == 10) _ _ (omega arith)
      (Shrinks-extend_line b 2 (c ∷ s) _ (line-Shrinks (c ∷ s)))

pub take_bytes-Shrinks : (n : ℕ) (s : Bytes) → Shrinks n s (take_bytes n s)
unfolding take_bytes
take_bytes-Shrinks n s =
    if_intro (Shrinks n s) (leb n (length s)) _ _ (λ h. ground (arith, length-drop n s)) (λ _. tt)

pub read_string-Shrinks : (s : Bytes) → Shrinks 2 s (read_string s)
unfolding read_string
read_string-Shrinks s =
    Shrinks-bind 2 s (line s) _ (line-Shrinks s) λ l rest h. Shrinks-if 2 s (is_utf8 l) _ _ h tt

read_bulk-Shrinks : (n : ℤ) (s : Bytes) → Shrinks 0 s (read_bulk n s)
unfolding read_bulk
read_bulk-Shrinks (negsuc k) s = omega arith
read_bulk-Shrinks (pos len) s =
    Shrinks-bind 0 s (take_bytes len s) _
      (Shrinks-le len 0 s s (take_bytes len s) (omega arith) (take_bytes-Shrinks len s))
      λ payload s' h.
        Shrinks-bind 0 s (take_bytes 2 s') _
          (Shrinks-le 2 0 s' s (take_bytes 2 s') (omega arith) (take_bytes-Shrinks 2 s'))
          λ ending s'' k. Shrinks-if 0 s (str_eq ending crlf) _ _ k tt

-- Each of the readers behind a tag leaves no more than it was given.
parse_simple-Shrinks : (s : Bytes) → Shrinks 2 s (parse_simple s)
unfolding parse_simple
parse_simple-Shrinks s = Shrinks-bind 2 s (read_string s) _ (read_string-Shrinks s) λ l rest h. h

parse_error-Shrinks : (s : Bytes) → Shrinks 2 s (parse_error s)
unfolding parse_error
parse_error-Shrinks s = Shrinks-bind 2 s (read_string s) _ (read_string-Shrinks s) λ l rest h. h

parse_integer-Shrinks : (s : Bytes) → Shrinks 2 s (parse_integer s)
unfolding parse_integer
parse_integer-Shrinks s =
    Shrinks-bind 2 s (line s) _ (line-Shrinks s) λ l rest h. Shrinks-then 2 s (parse_int l) _ λ n. h

parse_bulk-Shrinks : (s : Bytes) → Shrinks 2 s (parse_bulk s)
unfolding parse_bulk
parse_bulk-Shrinks s = Shrinks-bind 2 s (line s) _ (line-Shrinks s) λ l rest h.
    Shrinks-then 2 s (parse_int l) _
      λ n. Shrinks-le 0 2 rest s (read_bulk n rest) (omega arith) (read_bulk-Shrinks n rest)

parse_inline-Shrinks : (s : Bytes) → Shrinks 2 s (parse_inline s)
unfolding parse_inline
parse_inline-Shrinks s = Shrinks-bind 2 s (line s) _ (line-Shrinks s) λ l rest h. h

module _ (p : Bytes → Parsed (Frame × Bytes)) (shrinks : (s : Bytes) → Shrinks 0 s (p s)) where
  pub parse_items-Shrinks : (n : ℕ) (s : Bytes) → Shrinks 0 s (parse_items p n s)
  unfolding parse_items
  parse_items-Shrinks zero s = omega arith
  parse_items-Shrinks (suc n) s = Shrinks-bind 0 s (p s) _ (shrinks s) λ x s' h.
      Shrinks-bind 0 s (parse_items p n s') _
        (Shrinks-le 0 0 s' s (parse_items p n s') (omega arith) (parse_items-Shrinks n s'))
        λ xs s'' k. k

  read_items-Shrinks : (n : ℤ) (s : Bytes) → Shrinks 0 s (read_items p n s)
  unfolding read_items
  read_items-Shrinks (negsuc k) s = omega arith
  read_items-Shrinks (pos len) s =
      Shrinks-bind 0 s (parse_items p len s) _ (parse_items-Shrinks len s) λ xs s' h. h

  parse_array-Shrinks : (s : Bytes) → Shrinks 2 s (parse_array p s)
  unfolding parse_array
  parse_array-Shrinks s = Shrinks-bind 2 s (line s) _ (line-Shrinks s) λ l rest h.
      Shrinks-then 2 s (parse_int l) _
        λ n. Shrinks-le 0 2 rest s (read_items p n rest) (omega arith) (read_items-Shrinks n rest)

  -- Another reader that agrees on what is not longer reads the same items.
  module _ (q : Bytes → Parsed (Frame × Bytes)) where
    parse_items-agree :
        (n : ℕ) (s : Bytes)
        → ((t : Bytes) → length t ≤ length s → p t ≡ q t)
        → parse_items p n s ≡ parse_items q n s
    unfolding parse_items
    parse_items-agree zero s h = refl
    parse_items-agree (suc n) s h = rw (← h s (omega arith)) (
        bind-agree s (p s) _ _ (shrinks s) λ x s' k.
          ap (λ m. m >>= λ (xs, s''). ok (item x xs, s''))
            (parse_items-agree n s' (λ t j. h t (omega arith))))

    read_items-agree :
        (n : ℤ) (s : Bytes)
        → ((t : Bytes) → length t ≤ length s → p t ≡ q t)
        → read_items p n s ≡ read_items q n s
    unfolding read_items
    read_items-agree (negsuc k) s h = refl
    read_items-agree (pos len) s h =
        ap (λ m. m >>= λ (xs, s'). ok (array xs, s')) (parse_items-agree len s h)

    parse_array-agree :
        (s : Bytes)
        → ((t : Bytes) → length t ≤ length s → p t ≡ q t)
        → parse_array p s ≡ parse_array q s
    unfolding parse_array
    parse_array-agree s h =
        bind-agree s (line s) _ _ (Shrinks-le 2 0 s s (line s) (omega arith) (line-Shrinks s))
          λ l rest k.
            then-agree (parse_int l) _ _ λ n. read_items-agree n rest (λ t j. h t (omega arith))

-- A frame takes one byte at least, its tag, also where the tag begins an inline command.
pub parse-Shrinks : (fuel : ℕ) (s : Bytes) → Shrinks 1 s (parse fuel s)
unfolding parse
parse-Shrinks zero s = tt
parse-Shrinks (suc fuel) [] = tt
parse-Shrinks (suc fuel) (tag ∷ s) =
    Shrinks-if 1 (tag ∷ s) (tag == b'+') _ _ (behind (parse_simple s) (parse_simple-Shrinks s)) (
      Shrinks-if 1 (tag ∷ s) (tag == b'-') _ _ (behind (parse_error s) (parse_error-Shrinks s)) (
        Shrinks-if 1 (tag ∷ s) (tag == b':') _ _
          (behind (parse_integer s) (parse_integer-Shrinks s))
          (Shrinks-if 1 (tag ∷ s) (tag == b'$') _ _ (behind (parse_bulk s) (parse_bulk-Shrinks s)) (
            Shrinks-if 1 (tag ∷ s) (tag == b'*') _ _
              (behind (parse_array (parse fuel) s) (
                parse_array-Shrinks (parse fuel)
                  (λ t. Shrinks-le 1 0 t t (parse fuel t) (omega arith) (parse-Shrinks fuel t)) s))
              (Shrinks-le 2 1 (tag ∷ s) (tag ∷ s) (parse_inline (tag ∷ s)) (omega arith)
                (parse_inline-Shrinks (tag ∷ s)))))))
  where
    behind : (m : Parsed (Frame × Bytes)) → Shrinks 2 s m → Shrinks 1 (tag ∷ s) m
    behind m = Shrinks-le 2 1 s (tag ∷ s) m (omega arith)

-- The parser needs no more fuel than the length of its input: all larger amounts give the same
-- result.
pub parse_fuel : (f g : ℕ) (s : Bytes) → length s < f → length s < g → parse f s ≡ parse g s
unfolding parse
parse_fuel zero g s h k = absurd (omega arith)
parse_fuel (suc f) zero s h k = absurd (omega arith)
parse_fuel (suc f) (suc g) [] h k = refl
parse_fuel (suc f) (suc g) (tag ∷ s) h k =
    ap
      (λ m.
        if tag == b'+'
        then parse_simple s
        else if tag == b'-'
        then parse_error s
        else if tag == b':'
        then parse_integer s
        else if tag == b'$'
        then parse_bulk s
        else if tag == b'*'
        then m
        else parse_inline (tag ∷ s))
      (parse_array-agree (parse f)
        (λ t. Shrinks-le 1 0 t t (parse f t) (omega arith) (parse-Shrinks f t)) (parse g) s
        λ t j. parse_fuel f g t (omega arith) (omega arith))

-- A decoded frame takes bytes off the input.
pub length-decode :
    (src rest : Bytes) (f : Frame) → decode src ≡ (frame f, rest) → length rest < length src
unfolding decode
length-decode src rest f e =
    of_parse (parse (suc (length src)) src) (parse-Shrinks (suc (length src)) src) e
  where
    of_parse :
        (m : Parsed (Frame × Bytes))
        → Shrinks 1 src m
        → decoded src m ≡ (frame f, rest)
        → length rest < length src
    of_parse (ok (x, r)) h e = omega (arith, ap (λ p. length p.1) e)
    of_parse incomplete h e = cc
    of_parse (invalid msg) h e = cc
