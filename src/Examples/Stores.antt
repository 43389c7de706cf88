-- ===== src/Examples/Stores.antt =====
-- The theorems on the engine at concrete inputs.
use ferrium.Common.{◌+◌, ◌≡◌, refl, [], ◌∷◌, Bytes, bytes, lookup, str_eq}
use ferrium.Storage.Engine
use ferrium.Storage.Engine.{MemoryEngine}
use ferrium.Storage.Contents.{IsMap, get-restore}
use ferrium.Storage.Apply.{del, apply}
use ferrium.Storage.Apply.Effect.{meaning, get-apply, len-apply-del}

abbrev stored : MemoryEngine
stored = record { map = (bytes "a", bytes "1") ∷ (bytes "b", bytes "2") ∷ [] }

stored-IsMap : IsMap stored
unfolding lookup str_eq
stored-IsMap = (refl, (refl, tt))

get-apply_example :
    IsMap (apply (del (bytes "a" ∷ [])) stored).0
    × ((j : Bytes)
        → Engine.get (apply (del (bytes "a" ∷ [])) stored).0 j
          ≡ meaning (del (bytes "a" ∷ [])) (Engine.get stored) j)
get-apply_example = get-apply (del (bytes "a" ∷ [])) stored stored-IsMap

len-apply-del_example :
    Engine.len (apply (del (bytes "a" ∷ bytes "a" ∷ [])) stored).0
      + (apply (del (bytes "a" ∷ bytes "a" ∷ [])) stored).1
    ≡ Engine.len stored
len-apply-del_example = len-apply-del (bytes "a" ∷ bytes "a" ∷ []) stored

get-restore_example :
    IsMap (Engine.restore stored.map Engine.new)
    × ((j : Bytes) → Engine.get (Engine.restore stored.map Engine.new) j ≡ Engine.get stored j)
unfolding Engine.snapshot
get-restore_example = get-restore stored Engine.new stored.map stored-IsMap (λ j. refl)
