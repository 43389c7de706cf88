-- ===== src/Protocol/Command.antt =====
-- src/protocol/command.rs: a request frame read as a command. The text of a frame in a message
-- (`{:?}`) is the standard library's and the bytes crate's: the parameter `debug`.
use ferrium.Common.{
  ◌-◌, Bool, true, false, ◌&&◌, if◌then◌else◌, leb, str_eq, Option, none, some, List, [], ◌∷◌, ◌++◌,
  map, Bytes, bytes,
}
use ferrium.Protocol.Utf8.{from_utf8_lossy}
use ferrium.Protocol.Error.{Error, protocol, unknown_command, wrong_arity}
use ferrium.Protocol.Resp.{Frame, simple, error, integer, bulk, null, array, Frames, end, item}

pub data Command : Type 0 where
  ping : (message : Option Bytes) → Command
  get : (key : Bytes) → Command
  set : (key : Bytes) → (value : Bytes) → Command
  del : (keys : List Bytes) → Command
  cluster_status : Command
  cluster_members : Command
  command : Command

pub data Result {ℓ} (A : Type ℓ) : Type ℓ where
  ok : A → Result A
  err : Error → Result A

infixl 10 ◌>>=◌
abbrev pub ◌>>=◌ {ℓ κ} : {A : Type ℓ} {B : Type κ} → Result A → (A → Result B) → Result B
ok a >>= f = f a
err e >>= f = err e

-- `str::to_ascii_uppercase`
unfoldable pub to_ascii_uppercase : Bytes → Bytes
to_ascii_uppercase [] = []
to_ascii_uppercase (b ∷ s) = (if leb b'a' b && leb b b'z' then b - 32 else b) ∷ to_ascii_uppercase s

abbrev pub to_string : Bytes → Bytes
to_string = from_utf8_lossy

-- `exact` for one and for two arguments.
unfoldable pub exact1 : List Bytes → Bytes → Result Bytes
exact1 (a ∷ []) cmd = ok a
exact1 _ cmd = err (wrong_arity cmd)

unfoldable pub exact2 : List Bytes → Bytes → Result (Bytes × Bytes)
exact2 (a ∷ b ∷ []) cmd = ok (a, b)
exact2 _ cmd = err (wrong_arity cmd)

unfoldable pub assemble_ping : List Bytes → Result Command
assemble_ping [] = ok (ping none)
assemble_ping (a ∷ []) = ok (ping (some a))
assemble_ping _ = err (wrong_arity (bytes "ping"))

unfoldable pub assemble_get : List Bytes → Result Command
assemble_get args = do key ← exact1 args (bytes "get"); ok (get (to_string key))

unfoldable pub assemble_set : List Bytes → Result Command
assemble_set args = do (key, value) ← exact2 args (bytes "set"); ok (set (to_string key) value)

unfoldable pub assemble_del : List Bytes → Result Command
assemble_del [] = err (wrong_arity (bytes "del"))
assemble_del (a ∷ args) = ok (del (map to_string (a ∷ args)))

-- The subcommand; the empty string without one.
unfoldable pub subcommand : List Bytes → Bytes
subcommand [] = []
subcommand (a ∷ args) = to_ascii_uppercase (from_utf8_lossy a)

unfoldable pub assemble_cluster : Bytes → Result Command
assemble_cluster sub =
    if str_eq sub (bytes "STATUS")
    then ok cluster_status
    else if str_eq sub (bytes "INFO")
    then ok cluster_status
    else if str_eq sub (bytes "MEMBERS")
    then ok cluster_members
    else if str_eq sub (bytes "NODES")
    then ok cluster_members
    else err (unknown_command (bytes "CLUSTER " ++ sub))

unfoldable pub assemble : Bytes → List Bytes → Result Command
assemble name args =
    if str_eq name (bytes "PING")
    then assemble_ping args
    else if str_eq name (bytes "GET")
    then assemble_get args
    else if str_eq name (bytes "SET")
    then assemble_set args
    else if str_eq name (bytes "DEL")
    then assemble_del args
    else if str_eq name (bytes "CLUSTER")
    then assemble_cluster (subcommand args)
    else if str_eq name (bytes "COMMAND")
    then ok command
    else err (unknown_command name)

unfoldable pub is_write : Command → Bool
is_write (set key value) = true
is_write (del keys) = true
is_write _ = false

module _ (debug : Frame → Bytes) where
  unfoldable pub bulk_to_bytes : Frame → Result Bytes
  bulk_to_bytes (bulk b) = ok b
  bulk_to_bytes (simple s) = ok s
  bulk_to_bytes (error s) = err (protocol (bytes "expected bulk string, got " ++ debug (error s)))
  bulk_to_bytes (integer n) =
      err (protocol (bytes "expected bulk string, got " ++ debug (integer n)))
  bulk_to_bytes null = err (protocol (bytes "expected bulk string, got " ++ debug null))
  bulk_to_bytes (array xs) = err (protocol (bytes "expected bulk string, got " ++ debug (array xs)))

  -- `args.collect::<Result<_>>()`: the first error, or all the strings.
  unfoldable pub collect : Frames → Result (List Bytes)
  collect end = ok []
  collect (item x xs) = do b ← bulk_to_bytes x; bs ← collect xs; ok (b ∷ bs)

  unfoldable pub from_items : Frames → Result Command
  from_items end = err (protocol (bytes "expected non-empty array"))
  from_items (item x xs) = do
    name ← bulk_to_bytes x
    rest ← collect xs
    assemble (to_ascii_uppercase (from_utf8_lossy name)) rest

  unfoldable pub from_frame : Frame → Result Command
  from_frame (array items) = from_items items
  from_frame _ = err (protocol (bytes "expected non-empty array"))
