-- ===== src/Storage/Contents.antt =====
-- The in-memory engine of src/storage/memory.rs as a finite map: what each method does to `get`
-- and `len`.
use ferrium.Common.{
  ◌+◌, ◌≡◌, refl, ◌∙◌, arith, if◌then◌else◌, Option, none, some, List, [], ◌∷◌, Bytes, HashMap,
  lookup, insert, is_some, str_eq, str_eq_iff, lookup-insert, lookup-remove, KeysDistinct,
  KeysDistinct-insert, KeysDistinct-remove, length-remove,
}
use ferrium.Storage.Engine.{KeyValue, MemoryEngine, get, set, del, len, extend, snapshot, restore}

abbrev pub IsMap : MemoryEngine → Type 0
IsMap e = KeysDistinct e.map

pub get-set :
    (e : MemoryEngine) (k j : Bytes) (v : Bytes)
    → get (set k v e) j ≡ (if str_eq k j then some v else get e j)
unfolding get set
get-set e k j v = lookup-insert k j v e.map

pub get-del :
    (e : MemoryEngine) (k j : Bytes)
    → IsMap e
    → get (del k e).0 j ≡ (if str_eq k j then none else get e j)
unfolding get del
get-del e k j d = lookup-remove k j e.map d

pub set-IsMap : (e : MemoryEngine) (k v : Bytes) → IsMap e → IsMap (set k v e)
unfolding set
set-IsMap e k v d = KeysDistinct-insert k v e.map d

pub del-IsMap : (e : MemoryEngine) (k : Bytes) → IsMap e → IsMap (del k e).0
unfolding del
del-IsMap e k d = KeysDistinct-remove k e.map d

-- `del` reports whether the key was there, and then one key less is stored.
pub len-del :
    (e : MemoryEngine) (k : Bytes)
    → (len (del k e).0 + (if (del k e).1 then 1 else 0) ≡ len e) × ((del k e).1 ≡ is_some (get e k))
unfolding len del get
len-del e k = (length-remove k e.map, refl)

over : Option Bytes → Option Bytes → Option Bytes
over none o = o
over (some v) o = some v

lookup-extend :
    (entries : List KeyValue) (m : HashMap Bytes) (j : Bytes)
    → KeysDistinct entries
    → lookup j (extend entries m) ≡ over (lookup j entries) (lookup j m)
unfolding extend over lookup
lookup-extend [] m j d = refl
lookup-extend ((k, v) ∷ entries) m j d =
    ground (arith, lookup-extend entries (insert k v m) j, lookup-insert k j v m, str_eq_iff k j)

KeysDistinct-extend :
    (entries : List KeyValue) (m : HashMap Bytes) → KeysDistinct m → KeysDistinct (extend entries m)
unfolding extend
KeysDistinct-extend [] m d = d
KeysDistinct-extend ((k, v) ∷ entries) m d =
    KeysDistinct-extend entries (insert k v m) (KeysDistinct-insert k v m d)

over-none : (o : Option Bytes) → over o none ≡ o
unfolding over
over-none none = refl
over-none (some v) = refl

-- Restoring pairs with distinct keys that look up as a snapshot of the source does, in whatever
-- order they come, gives any engine distinct keys and the contents of the source.
pub get-restore :
    (source target : MemoryEngine) (entries : List KeyValue)
    → KeysDistinct entries
    → ((j : Bytes) → lookup j entries ≡ lookup j (snapshot source))
    → IsMap (restore entries target) × ((j : Bytes) → get (restore entries target) j ≡ get source j)
unfolding get restore snapshot lookup
get-restore source target entries d same = (
  KeysDistinct-extend entries [] tt,
  λ j. lookup-extend entries [] j d ∙ (over-none (lookup j entries) ∙ same j),
)
