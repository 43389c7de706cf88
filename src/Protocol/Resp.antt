-- ===== src/Protocol/Resp.antt =====
-- src/protocol/resp.rs: RESP2 frames, their encoder and their streaming decoder.
use ferrium.Common.{
  ℕ, zero, suc, ◌&&◌, if◌then◌else◌, leb, ◌==◌, str_eq, none, some, List, [], ◌∷◌, ◌++◌, Bytes,
  bytes, length, take, drop,
}
use ferrium.Protocol.Utf8.{is_utf8}
use ferrium.Protocol.Decimal.{ℤ, pos, negsuc, decimal, to_string, parse_i64}

mutual
  pub data Frame : Type 0 where
    simple : (s : Bytes) → Frame
    error : (s : Bytes) → Frame
    integer : (n : ℤ) → Frame
    bulk : (payload : Bytes) → Frame
    null : Frame
    array : (items : Frames) → Frame

  -- `Vec<Frame>`
  pub data Frames : Type 0 where
    end : Frames
    item : (first : Frame) → (rest : Frames) → Frames

abbrev pub crlf : Bytes
crlf = 13 ∷ 10 ∷ []

abbrev pub count_items : Frames → ℕ
count_items end = 0
count_items (item x xs) = suc (count_items xs)

-- `Frame::encode`: the bytes that it puts at the end of `dst`.
unfoldable mutual
  pub encode : Frame → Bytes
  encode (simple s) = b'+' ∷ s ++ crlf
  encode (error s) = b'-' ∷ s ++ crlf
  encode (integer n) = b':' ∷ to_string n ++ crlf
  encode (bulk payload) = b'$' ∷ decimal (length payload) ++ crlf ++ payload ++ crlf
  encode null = bytes "$-1" ++ crlf
  encode (array items) = b'*' ∷ decimal (count_items items) ++ crlf ++ encode_items items

  pub encode_items : Frames → Bytes
  encode_items end = []
  encode_items (item x xs) = encode x ++ encode_items xs

-- A result of the cursor, or a `ParseError`.
pub data Parsed {ℓ} (A : Type ℓ) : Type ℓ where
  ok : A → Parsed A
  incomplete : Parsed A
  invalid : (msg : Bytes) → Parsed A

infixl 10 ◌>>=◌
abbrev pub ◌>>=◌ {ℓ κ} : {A : Type ℓ} {B : Type κ} → Parsed A → (A → Parsed B) → Parsed B
ok a >>= f = f a
incomplete >>= f = incomplete
invalid msg >>= f = invalid msg

-- The cursor is the bytes from its position on; each read returns those behind what it read.
unfoldable pub read_u8 : Bytes → Parsed (ℕ × Bytes)
read_u8 [] = incomplete
read_u8 (b ∷ s) = ok (b, s)

-- The line that begins with `b`, when the rest of it has been read.
abbrev pub extend_line : ℕ → Parsed (Bytes × Bytes) → Parsed (Bytes × Bytes)
extend_line b (ok (l, s)) = ok (b ∷ l, s)
extend_line b incomplete = incomplete
extend_line b (invalid msg) = invalid msg

unfoldable pub line : Bytes → Parsed (Bytes × Bytes)
line [] = incomplete
line (b ∷ []) = incomplete
line (b ∷ c ∷ s) =
    let rest = extend_line b (line (c ∷ s)) in if b == 13 && c == 10 then ok ([], s) else rest

unfoldable pub take_bytes : ℕ → Bytes → Parsed (Bytes × Bytes)
take_bytes n s = if leb n (length s) then ok (take n s, drop n s) else incomplete

-- `{:?}` of a byte slice.
unfoldable pub debug_items : Bytes → Bytes
debug_items [] = bytes "]"
debug_items (b ∷ s) = bytes ", " ++ decimal b ++ debug_items s

unfoldable pub debug : Bytes → Bytes
debug [] = bytes "[]"
debug (b ∷ s) = bytes "[" ++ decimal b ++ debug_items s

unfoldable pub parse_int : Bytes → Parsed ℤ
parse_int l = elim (parse_i64 l) [
  | none ↦ invalid (bytes "invalid integer: " ++ debug l)
  | some n ↦ ok n
]

unfoldable pub read_string : Bytes → Parsed (Bytes × Bytes)
read_string s = do
  (l, s') ← line s
  if is_utf8 l then ok (l, s') else invalid (bytes "invalid utf-8 in simple string")

-- `line.split(|b| *b == b' ').filter(|w| !w.is_empty())`, `word` being the word read so far.
unfoldable pub words : Bytes → Bytes → List Bytes
words [] [] = []
words (b ∷ word) [] = (b ∷ word) ∷ []
words word (c ∷ s) =
    let more = words (word ++ c ∷ []) s in
    let fresh = words [] s in
    if c == b' ' then elim word [ [] ↦ fresh | b ∷ w ↦ (b ∷ w) ∷ fresh ] else more

abbrev pub bulks : List Bytes → Frames
bulks [] = end
bulks (w ∷ ws) = item (bulk w) (bulks ws)

unfoldable pub parse_simple : Bytes → Parsed (Frame × Bytes)
parse_simple s = do (l, s') ← read_string s; ok (simple l, s')

unfoldable pub parse_error : Bytes → Parsed (Frame × Bytes)
parse_error s = do (l, s') ← read_string s; ok (error l, s')

unfoldable pub parse_integer : Bytes → Parsed (Frame × Bytes)
parse_integer s = do (l, s') ← line s; n ← parse_int l; ok (integer n, s')

-- The data of a bulk string, after its length.
unfoldable pub read_bulk : ℤ → Bytes → Parsed (Frame × Bytes)
read_bulk (negsuc k) s = ok (null, s)
read_bulk (pos len) s = do
  (payload, s') ← take_bytes len s
  (ending, s'') ← take_bytes 2 s'
  if str_eq ending crlf
      then ok (bulk payload, s'')
      else invalid (bytes "bulk not terminated by CRLF")

unfoldable pub parse_bulk : Bytes → Parsed (Frame × Bytes)
parse_bulk s = do (l, s') ← line s; n ← parse_int l; read_bulk n s'

-- The loop that reads the items of an array.
unfoldable pub parse_items : (Bytes → Parsed (Frame × Bytes)) → ℕ → Bytes → Parsed (Frames × Bytes)
parse_items parse_one zero s = ok (end, s)
parse_items parse_one (suc n) s = do
  (x, s') ← parse_one s
  (xs, s'') ← parse_items parse_one n s'
  ok (item x xs, s'')

-- The items of an array, after their number.
unfoldable pub read_items : (Bytes → Parsed (Frame × Bytes)) → ℤ → Bytes → Parsed (Frame × Bytes)
read_items parse_one (negsuc k) s = ok (null, s)
read_items parse_one (pos len) s = do
  (items, s') ← parse_items parse_one len s
  ok (array items, s')

unfoldable pub parse_array : (Bytes → Parsed (Frame × Bytes)) → Bytes → Parsed (Frame × Bytes)
parse_array parse_one s = do (l, s') ← line s; n ← parse_int l; read_items parse_one n s'

unfoldable pub parse_inline : Bytes → Parsed (Frame × Bytes)
parse_inline s = do (l, s') ← line s; ok (array (bulks (words [] l)), s')

-- Every nested call reads from behind the tag it stands under, so the length of the input, and one
-- more, is enough fuel; without fuel the input is empty.
unfoldable pub parse : ℕ → Bytes → Parsed (Frame × Bytes)
parse zero s = incomplete
parse (suc fuel) [] = incomplete
parse (suc fuel) (tag ∷ s) =
    if tag == b'+'
    then parse_simple s
    else if tag == b'-'
    then parse_error s
    else if tag == b':'
    then parse_integer s
    else if tag == b'$'
    then parse_bulk s
    else if tag == b'*'
    then parse_array (parse fuel) s
    else parse_inline (tag ∷ s)

pub data Decoded : Type 0 where
  frame : Frame → Decoded
  partial : Decoded
  protocol_error : (msg : Bytes) → Decoded

-- What `Frame::decode` returns for a result of `parse`, and what is left in `src`.
abbrev pub decoded : Bytes → Parsed (Frame × Bytes) → Decoded × Bytes
decoded src (ok (f, rest)) = (frame f, rest)
decoded src incomplete = (partial, src)
decoded src (invalid msg) = (protocol_error msg, src)

unfoldable pub decode : Bytes → Decoded × Bytes
decode src = decoded src (parse (suc (length src)) src)
