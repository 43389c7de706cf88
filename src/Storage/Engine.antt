-- ===== src/Storage/Engine.antt =====
-- src/storage/engine.rs and src/storage/memory.rs: the in-memory engine behind the
-- `StorageEngine` trait. Each method that writes under the lock returns the new engine.
use ferrium.Common.{
  ℕ, Bool, Option, List, [], ◌∷◌, Bytes, HashMap, lookup, insert, is_some, remove, length, ◌==◌,
}

-- One key/value pair of a snapshot.
abbrev pub KeyValue : Type 0
KeyValue = Bytes × Bytes

pub record MemoryEngine : Type 0 where
  pub map : HashMap Bytes

abbrev pub new : MemoryEngine
new = record { map = [] }

unfoldable pub get : MemoryEngine → Bytes → Option Bytes
get e key = lookup key e.map

unfoldable pub set : Bytes → Bytes → MemoryEngine → MemoryEngine
set key value e = record { map = insert key value e.map }

-- The new engine, and whether the key existed.
unfoldable pub del : Bytes → MemoryEngine → MemoryEngine × Bool
del key e = (record { map = remove key e.map }, is_some (lookup key e.map))

unfoldable pub len : MemoryEngine → ℕ
len e = length e.map

unfoldable pub is_empty : MemoryEngine → Bool
unfolding len
is_empty e = len e == 0

unfoldable pub snapshot : MemoryEngine → List KeyValue
snapshot e = e.map

-- `HashMap::extend`
unfoldable pub extend : List KeyValue → HashMap Bytes → HashMap Bytes
extend [] m = m
extend ((k, v) ∷ entries) m = extend entries (insert k v m)

unfoldable pub restore : List KeyValue → MemoryEngine → MemoryEngine
unfolding extend
restore entries e = record { map = extend entries [] }
