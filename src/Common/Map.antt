-- ===== src/Common/Map.antt =====
-- `std::collections::HashMap` and `HashSet` keyed by strings, as association lists. Iteration
-- follows the list.
use Prim.Native.Nat.{◌+◌}
use mathlib.Core.Path.{◌≡◌, refl}
use mathlib.Core.Bool.{Bool, true, false}
use mathlib.Core.Option.{Option, none, some}
use mathlib.Core.List.{List, [], ◌∷◌}
use native.Mathlib.Omega.{arith}
use ferrium.Common.Tests.{if◌then◌else◌}
use ferrium.Common.Lists.{length}
use ferrium.Common.Text.{Bytes, str_eq, str_eq_iff}

abbrev pub is_some {ℓ} : {A : Type ℓ} → Option A → Bool
is_some none = false
is_some (some a) = true

abbrev pub HashMap {ℓ} : Type ℓ → Type ℓ
HashMap V = List (Bytes × V)

module _ {ℓ} {V : Type ℓ} where
  unfoldable pub lookup : Bytes → HashMap V → Option V
  lookup k [] = none
  lookup k ((j, v) ∷ m) = if str_eq j k then some v else lookup k m

  unfoldable pub insert : Bytes → V → HashMap V → HashMap V
  insert k v [] = (k, v) ∷ []
  insert k v ((j, w) ∷ m) = if str_eq j k then (k, v) ∷ m else (j, w) ∷ insert k v m

  unfoldable pub remove : Bytes → HashMap V → HashMap V
  remove k [] = []
  remove k ((j, w) ∷ m) = if str_eq j k then m else (j, w) ∷ remove k m

  -- No key occurs twice: what a `HashMap` guarantees.
  abbrev pub Absent : Bytes → HashMap V → Type ℓ
  Absent k m = lookup k m ≡ none

  pub lookup-insert :
      (k j : Bytes) (v : V) (m : HashMap V)
      → lookup j (insert k v m) ≡ (if str_eq k j then some v else lookup j m)
  unfolding lookup insert
  lookup-insert k j v [] = refl
  lookup-insert k j v ((i, w) ∷ m) =
      ground (arith, str_eq_iff k j, str_eq_iff i k, str_eq_iff i j, lookup-insert k j v m)

  abbrev pub KeysDistinct : HashMap V → Type ℓ
  KeysDistinct [] = Unit
  KeysDistinct ((j, w) ∷ m) = Absent j m × KeysDistinct m

  pub lookup-remove :
      (k j : Bytes) (m : HashMap V)
      → KeysDistinct m
      → lookup j (remove k m) ≡ (if str_eq k j then none else lookup j m)
  unfolding lookup remove
  lookup-remove k j [] d = ground arith
  lookup-remove k j ((i, w) ∷ m) d =
      ground (arith, str_eq_iff k j, str_eq_iff i k, str_eq_iff i j, lookup-remove k j m)

  Absent-insert :
      (k j : Bytes) (v : V) (m : HashMap V)
      → str_eq k j ≡ false
      → Absent j m
      → Absent j (insert k v m)
  Absent-insert k j v m ne a = rw (lookup-insert, ne) a

  pub KeysDistinct-insert :
      (k : Bytes) (v : V) (m : HashMap V) → KeysDistinct m → KeysDistinct (insert k v m)
  unfolding insert lookup
  KeysDistinct-insert k v [] d = (refl, tt)
  KeysDistinct-insert k v ((i, w) ∷ m) d =
      ground
        (arith, str_eq_iff i k, str_eq_iff k i, KeysDistinct-insert k v m, Absent-insert k i v m)

  pub KeysDistinct-remove : (k : Bytes) (m : HashMap V) → KeysDistinct m → KeysDistinct (remove k m)
  unfolding remove
  KeysDistinct-remove k [] d = tt
  KeysDistinct-remove k ((i, w) ∷ m) d =
      ground (arith, KeysDistinct-remove k m, lookup-remove k i m)

  pub length-remove :
      (k : Bytes) (m : HashMap V)
      → length (remove k m) + (if is_some (lookup k m) then 1 else 0) ≡ length m
  unfolding remove lookup
  length-remove k [] = omega arith
  length-remove k ((i, w) ∷ m) = ground (arith, length-remove k m)

  pub length-insert :
      (k : Bytes) (v : V) (m : HashMap V)
      → length (insert k v m) ≡ length m + (if is_some (lookup k m) then 0 else 1)
  unfolding insert lookup
  length-insert k v [] = omega arith
  length-insert k v ((i, w) ∷ m) = ground (arith, length-insert k v m)
