-- ===== src/Protocol/Sound.antt =====
-- src/protocol/resp.rs: whatever the decoder reads, the encoder can write so that it reads back.
use ferrium.Common.{
  ℕ, zero, suc, ◌+◌, ◌*◌, ◌-◌, ◌^◌, ◌≤◌, Bool, true, false, if◌then◌else◌, if_intro, ◌==◌, ◌&&◌,
  leb, Option, none, some, [], ◌∷◌, Bytes, length, length-take_of_le, ◌≡◌, refl, sym, ap, arith,
  str_eq, leb→le,
}
use mathlib.Core.Option
use ferrium.Protocol.Utf8.{is_utf8}
use ferrium.Protocol.Decimal.{ℤ, pos, negsuc, IsI64, max_i64, scan, positive, negative, parse_i64}
use ferrium.Protocol.Resp.{
  Frame, Frames, crlf, count_items, Parsed, ok, incomplete, invalid, ◌>>=◌, extend_line, line,
  take_bytes, parse_int, read_string, parse_simple, parse_error, parse_integer, read_bulk,
  parse_bulk, parse_items, read_items, parse_array,
}
use ferrium.Protocol.RoundTrip.{has_crlf, IsSendable, AreSendable}
use ferrium.Protocol.Progress.{
  Shrinks, Shrinks-le, parse_items-Shrinks, line-Shrinks, take_bytes-Shrinks, read_string-Shrinks,
}

-- What a reader yields has a property, if it yields anything.
abbrev pub Yields {ℓ} : {A : Type ℓ} → (A → Type 0) → Parsed (A × Bytes) → Type 0
Yields P (ok (a, rest)) = P a
Yields P incomplete = Unit
Yields P (invalid msg) = Unit

module _ {ℓ κ} {A : Type ℓ} {B : Type κ} where
  pub Yields-bind :
      (P : A → Type 0) (Q : B → Type 0) (s : Bytes) (m : Parsed (A × Bytes))
      (f : A × Bytes → Parsed (B × Bytes))
      → Shrinks 0 s m
      → Yields P m
      → ((a : A) (rest : Bytes) → length rest ≤ length s → P a → Yields Q (f (a, rest)))
      → Yields Q (m >>= f)
  Yields-bind P Q s (ok (a, rest)) f h p k = k a rest (omega arith) p
  Yields-bind P Q s incomplete f h p k = tt
  Yields-bind P Q s (invalid msg) f h p k = tt

  -- A value that is read without the cursor.
  Yields-then :
      (Q : B → Type 0) (m : Parsed A) (f : A → Parsed (B × Bytes))
      → ((a : A) → m ≡ ok a → Yields Q (f a))
      → Yields Q (m >>= f)
  Yields-then Q (ok a) f k = k a refl
  Yields-then Q incomplete f k = tt
  Yields-then Q (invalid msg) f k = tt

pub Yields-if {ℓ} :
    {A : Type ℓ} (P : A → Type 0) (b : Bool) (x y : Parsed (A × Bytes))
    → (b ≡ true → Yields P x)
    → (b ≡ false → Yields P y)
    → Yields P (if b then x else y)
Yields-if P b x y h k = if_intro (Yields P) b x y h k

Yields-map {ℓ} :
    {A : Type ℓ} (P Q : A → Type 0) (m : Parsed (A × Bytes))
    → ((a : A) → P a → Q a)
    → Yields P m
    → Yields Q m
Yields-map P Q (ok (a, rest)) f h = f a h
Yields-map P Q incomplete f h = tt
Yields-map P Q (invalid msg) f h = tt

scan-le : (limit : ℕ) (s : Bytes) (n m : ℕ) → n ≤ limit → scan limit s n ≡ some m → m ≤ limit
unfolding scan
scan-le limit [] n m h e = ground arith
scan-le limit (c ∷ s) n m h e = ground (arith, scan-le limit s (n * 10 + (c - b'0')) m)

positive-IsI64 : (s : Bytes) (n : ℤ) → positive (scan max_i64 s 0) ≡ some n → IsI64 n
positive-IsI64 s n e = go (scan max_i64 s 0) (λ m. scan-le max_i64 s 0 m (omega arith)) e
  where
    go : (o : Option ℕ) → ((m : ℕ) → o ≡ some m → m ≤ max_i64) → positive o ≡ some n → IsI64 n
    go none h k = cc
    go (some m) h k = rw (Option.some-injective _ _ (sym k)) (h m refl)

negative-IsI64 : (s : Bytes) (n : ℤ) → negative (scan (2 ^ 63) s 0) ≡ some n → IsI64 n
negative-IsI64 s n e = go (scan (2 ^ 63) s 0) (λ m. scan-le (2 ^ 63) s 0 m (omega arith)) e
  where
    go : (o : Option ℕ) → ((m : ℕ) → o ≡ some m → m ≤ 2 ^ 63) → negative o ≡ some n → IsI64 n
    go none h k = cc
    go (some zero) h k = rw (Option.some-injective _ _ (sym k)) (omega arith)
    go (some (suc m)) h k =
        let le = h (suc m) refl in rw (Option.some-injective _ _ (sym k)) (omega arith)

parse_i64-IsI64 : (s : Bytes) (n : ℤ) → parse_i64 s ≡ some n → IsI64 n
unfolding parse_i64
parse_i64-IsI64 [] n e = cc
parse_i64-IsI64 (c ∷ []) n e = positive-IsI64 (c ∷ []) n e
parse_i64-IsI64 (c ∷ d ∷ s) n e =
    ground (arith, positive-IsI64 (d ∷ s) n, positive-IsI64 (c ∷ d ∷ s) n, negative-IsI64 (d ∷ s) n)

parse_int-IsI64 : (l : Bytes) (n : ℤ) → parse_int l ≡ ok n → IsI64 n
unfolding parse_int
parse_int-IsI64 l n e = ground (arith, parse_i64-IsI64 l n)

-- A line holds no line end, and begins with the byte that stands there.
abbrev IsLine : ℕ → Bytes → Type 0
IsLine b [] = Unit
IsLine b (c ∷ l) = (c ≡ b) × (has_crlf (c ∷ l) ≡ false)

extend_line-IsLine :
    (b c : ℕ) (m : Parsed (Bytes × Bytes))
    → (b == 13 && c == 10) ≡ false
    → Yields (IsLine c) m
    → Yields (IsLine b) (extend_line b m)
unfolding has_crlf
extend_line-IsLine b c (ok ([], rest)) h k = (refl, refl)
extend_line-IsLine b c (ok (d ∷ l, rest)) h (k, no_crlf) = (refl, ground (arith, k, no_crlf, h))
extend_line-IsLine b c incomplete h k = tt
extend_line-IsLine b c (invalid msg) h k = tt

line-IsLine : (b : ℕ) (s : Bytes) → Yields (IsLine b) (line (b ∷ s))
unfolding line
line-IsLine b [] = tt
line-IsLine b (c ∷ s) =
    Yields-if (IsLine b) (b == 13 && c == 10) _ _ (λ _. tt)
      λ h. extend_line-IsLine b c (line (c ∷ s)) h (line-IsLine c s)

abbrev pub HasNoCrlf : Bytes → Type 0
HasNoCrlf l = has_crlf l ≡ false

line-HasNoCrlf : (s : Bytes) → Yields HasNoCrlf (line s)
unfolding has_crlf line
line-HasNoCrlf [] = tt
line-HasNoCrlf (b ∷ s) = Yields-map (IsLine b) HasNoCrlf (line (b ∷ s)) of_line (line-IsLine b s)
  where
    of_line : (l : Bytes) → IsLine b l → HasNoCrlf l
    of_line [] h = refl
    of_line (c ∷ l) (e, h) = h

-- What follows a line, if anything.
pub behind_line {ℓ} :
    {B : Type ℓ} (Q : B → Type 0) (s : Bytes) (f : Bytes × Bytes → Parsed (B × Bytes))
    → ((l rest : Bytes) → length rest ≤ length s → HasNoCrlf l → Yields Q (f (l, rest)))
    → Yields Q (line s >>= f)
behind_line Q s f k =
    Yields-bind HasNoCrlf Q s (line s) f
      (Shrinks-le 2 0 s s (line s) (omega arith) (line-Shrinks s)) (line-HasNoCrlf s) k

abbrev IsString : Bytes → Type 0
IsString l = (is_utf8 l ≡ true) × (has_crlf l ≡ false)

read_string-IsString : (s : Bytes) → Yields IsString (read_string s)
unfolding read_string
read_string-IsString s =
    behind_line IsString s _
      λ l rest _ h. Yields-if IsString (is_utf8 l) _ _ (λ u. (u, h)) (λ _. tt)

pub parse_simple-IsSendable : (s : Bytes) → Yields IsSendable (parse_simple s)
unfolding parse_simple IsSendable
parse_simple-IsSendable s =
    Yields-bind IsString IsSendable s (read_string s) _
      (Shrinks-le 2 0 s s (read_string s) (omega arith) (read_string-Shrinks s))
      (read_string-IsString s) λ l rest _ h. h

pub parse_error-IsSendable : (s : Bytes) → Yields IsSendable (parse_error s)
unfolding parse_error IsSendable
parse_error-IsSendable s =
    Yields-bind IsString IsSendable s (read_string s) _
      (Shrinks-le 2 0 s s (read_string s) (omega arith) (read_string-Shrinks s))
      (read_string-IsString s) λ l rest _ h. h

pub parse_integer-IsSendable : (s : Bytes) → Yields IsSendable (parse_integer s)
unfolding parse_integer IsSendable
parse_integer-IsSendable s =
    behind_line IsSendable s _
      λ l rest _ _. Yields-then IsSendable (parse_int l) _ (parse_int-IsI64 l)

take_bytes-length : (n : ℕ) (s : Bytes) → Yields (λ l. length l ≡ n) (take_bytes n s)
unfolding take_bytes
take_bytes-length n s =
    Yields-if (λ l. length l ≡ n) (leb n (length s)) _ _
      (λ h. length-take_of_le n s (leb→le n (length s) h)) (λ _. tt)

read_bulk-IsSendable : (n : ℤ) (s : Bytes) → IsI64 n → Yields IsSendable (read_bulk n s)
unfolding read_bulk IsSendable
read_bulk-IsSendable (negsuc k) s h = tt
read_bulk-IsSendable (pos len) s h =
    Yields-bind (λ l. length l ≡ len) IsSendable s (take_bytes len s) _
      (Shrinks-le len 0 s s (take_bytes len s) (omega arith) (take_bytes-Shrinks len s))
      (take_bytes-length len s)
      λ payload s' _ e.
        Yields-bind (λ l. length l ≡ 2) IsSendable s' (take_bytes 2 s') _
          (Shrinks-le 2 0 s' s' (take_bytes 2 s') (omega arith) (take_bytes-Shrinks 2 s'))
          (take_bytes-length 2 s')
          λ ending s'' _ _.
            Yields-if IsSendable (str_eq ending crlf) _ _ (λ _. omega arith) (λ _. tt)

pub parse_bulk-IsSendable : (s : Bytes) → Yields IsSendable (parse_bulk s)
unfolding parse_bulk
parse_bulk-IsSendable s = behind_line IsSendable s _ λ l rest _ _.
    Yields-then IsSendable (parse_int l) _
      λ n e. read_bulk-IsSendable n rest (parse_int-IsI64 l n e)

module _ (p : Bytes → Parsed (Frame × Bytes)) (shrinks : (s : Bytes) → Shrinks 0 s (p s))
    (sound : (s : Bytes) → length s ≤ max_i64 → Yields IsSendable (p s)) where
  abbrev AreItems : ℕ → Frames → Type 0
  AreItems n xs = (count_items xs ≡ n) × AreSendable xs

  parse_items-AreItems :
      (n : ℕ) (s : Bytes) → length s ≤ max_i64 → Yields (AreItems n) (parse_items p n s)
  unfolding parse_items IsSendable
  parse_items-AreItems zero s room = (refl, tt)
  parse_items-AreItems (suc n) s room =
      Yields-bind IsSendable (AreItems (suc n)) s (p s) _ (shrinks s) (sound s room) λ x s' k h.
        Yields-bind (AreItems n) (AreItems (suc n)) s' (parse_items p n s') _
          (parse_items-Shrinks p shrinks n s') (parse_items-AreItems n s' (omega arith))
          λ xs s'' _ (e, hs). (ap suc e, (h, hs))

  read_items-IsSendable :
      (n : ℤ) (s : Bytes) → IsI64 n → length s ≤ max_i64 → Yields IsSendable (read_items p n s)
  unfolding read_items IsSendable
  read_items-IsSendable (negsuc k) s h room = tt
  read_items-IsSendable (pos len) s h room =
      Yields-bind (AreItems len) IsSendable s (parse_items p len s) _
        (parse_items-Shrinks p shrinks len s) (parse_items-AreItems len s room)
        λ xs s' _ (e, hs). (omega arith, hs)

  pub parse_array-IsSendable :
      (s : Bytes) → length s ≤ max_i64 → Yields IsSendable (parse_array p s)
  unfolding parse_array
  parse_array-IsSendable s room = behind_line IsSendable s _ λ l rest k _.
      Yields-then IsSendable (parse_int l) _
        λ n e. read_items-IsSendable n rest (parse_int-IsI64 l n e) (omega arith)
