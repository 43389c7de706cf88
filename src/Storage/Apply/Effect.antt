-- ===== src/Storage/Apply/Effect.antt =====
-- The commands of src/apply.rs against their meaning on finite maps.
use ferrium.Common.{
  ◌+◌, ◌≡◌, refl, arith, if◌then◌else◌, Option, none, some, List, [], ◌∷◌, Bytes, Bool, false,
  str_eq, ◌||◌,
}
use ferrium.Storage.Engine
use ferrium.Storage.Engine.{MemoryEngine}
use ferrium.Storage.Contents.{IsMap, get-set, get-del, set-IsMap, del-IsMap, len-del}
use ferrium.Storage.Apply.{WriteCommand, set, del, del_all, apply}

abbrev pub listed : List Bytes → Bytes → Bool
listed [] j = false
listed (k ∷ keys) j = str_eq k j || listed keys j

-- What a command does to the value under a key.
abbrev pub meaning : WriteCommand → (Bytes → Option Bytes) → Bytes → Option Bytes
meaning (set key value) f j = if str_eq key j then some value else f j
meaning (del keys) f j = if listed keys j then none else f j

del_all-IsMap : (keys : List Bytes) (e : MemoryEngine) → IsMap e → IsMap (del_all keys e).0
unfolding del_all
del_all-IsMap [] e d = d
del_all-IsMap (k ∷ keys) e d = del_all-IsMap keys (Engine.del k e).0 (del-IsMap e k d)

get-del_all :
    (keys : List Bytes) (e : MemoryEngine) (j : Bytes)
    → IsMap e
    → Engine.get (del_all keys e).0 j ≡ (if listed keys j then none else Engine.get e j)
unfolding del_all
get-del_all [] e j d = refl
get-del_all (k ∷ keys) e j d =
    ground (arith, get-del_all keys (Engine.del k e).0 j (del-IsMap e k d), get-del e k j d)

len-del_all :
    (keys : List Bytes) (e : MemoryEngine)
    → Engine.len (del_all keys e).0 + (del_all keys e).1 ≡ Engine.len e
unfolding del_all
len-del_all [] e = omega arith
len-del_all (k ∷ keys) e = ground (arith, len-del_all keys (Engine.del k e).0, len-del e k)

-- Applying a command to an engine with distinct keys leaves distinct keys, and under every key
-- what the command means: SET stores its value under its key, DEL removes the listed keys, and
-- other keys keep their values.
pub get-apply :
    (c : WriteCommand) (e : MemoryEngine)
    → IsMap e
    → IsMap (apply c e).0 × ((j : Bytes) → Engine.get (apply c e).0 j ≡ meaning c (Engine.get e) j)
unfolding apply
get-apply (set key value) e d = (set-IsMap e key value d, λ j. get-set e key j value)
get-apply (del keys) e d = (del_all-IsMap keys e d, λ j. get-del_all keys e j d)

-- The number that DEL returns is the number of keys by which the engine shrinks, a repeated key
-- counted once.
pub len-apply-del :
    (keys : List Bytes) (e : MemoryEngine)
    → Engine.len (apply (del keys) e).0 + (apply (del keys) e).1 ≡ Engine.len e
unfolding apply
len-apply-del keys e = len-del_all keys e
