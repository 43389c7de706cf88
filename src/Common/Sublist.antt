-- ===== src/Common/Sublist.antt =====
-- What is left of a list when elements are dropped, in order.
use ferrium.Common.Lists.{take}
use Prim.Native.Nat.{ℕ, zero, suc}
use mathlib.Core.List.{List, [], ◌∷◌, ◌++◌}

-- The elements of a list, some left out, in order.
pub data IsSublist {A : Type 0} : List A → List A → Type 0 where
  done : IsSublist [] []
  keep : (x : A) (xs ys : List A) → IsSublist xs ys → IsSublist (x ∷ xs) (x ∷ ys)
  skip : (y : A) (xs ys : List A) → IsSublist xs ys → IsSublist xs (y ∷ ys)

pub IsSublist-nil : {A : Type 0} (ys : List A) → IsSublist [] ys
IsSublist-nil [] = done
IsSublist-nil (y ∷ ys) = skip y [] ys (IsSublist-nil ys)

pub IsSublist-append :
    {A : Type 0} (xs ys xs' ys' : List A)
    → IsSublist xs ys
    → IsSublist xs' ys'
    → IsSublist (xs ++ xs') (ys ++ ys')
IsSublist-append _ _ xs' ys' done w = w
IsSublist-append _ _ xs' ys' (keep x xs ys v) w =
    keep x (xs ++ xs') (ys ++ ys') (IsSublist-append xs ys xs' ys' v w)
IsSublist-append _ _ xs' ys' (skip y xs ys v) w =
    skip y (xs ++ xs') (ys ++ ys') (IsSublist-append xs ys xs' ys' v w)

pub take-IsSublist : {A : Type 0} (j : ℕ) (ys : List A) → IsSublist (take j ys) ys
take-IsSublist zero ys = IsSublist-nil ys
take-IsSublist (suc j) [] = done
take-IsSublist (suc j) (y ∷ ys) = keep y (take j ys) ys (take-IsSublist j ys)
