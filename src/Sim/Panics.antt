-- ===== src/Sim/Panics.antt =====
-- src/sim.rs: computations that may panic.
use ferrium.Common.{
  ℕ, zero, suc, ◌<◌, Bool, true, false, if◌then◌else◌, Option, none, some, List, [], ◌∷◌, length,
  get_elem?, ◌≡◌, refl, arith,
}
use ferrium.Sim.{◌>>=◌}

-- The computation does not panic, and its result satisfies `P`.
abbrev pub Gives : {A : Type 0} → (A → Type 0) → Option A → Type 0
Gives P none = ⊥
Gives P (some a) = P a

pub Gives-bind :
    {A B : Type 0} (P : A → Type 0) (Q : B → Type 0) (m : Option A) (f : A → Option B)
    → Gives P m
    → ((a : A) → P a → Gives Q (f a))
    → Gives Q (m >>= f)
Gives-bind P Q none f h k = absurd h
Gives-bind P Q (some a) f h k = k a h

pub Gives-map :
    {A : Type 0} (P Q : A → Type 0) (m : Option A) → Gives P m → ((a : A) → P a → Q a) → Gives Q m
Gives-map P Q none h k = h
Gives-map P Q (some a) h k = k a h

pub Gives-if :
    {A : Type 0} (P : A → Type 0) (b : Bool) (x y : Option A)
    → (b ≡ true → Gives P x)
    → (b ≡ false → Gives P y)
    → Gives P (if b then x else y)
Gives-if P true x y h k = h refl
Gives-if P false x y h k = k refl

pub get_elem?-Gives :
    {A : Type 0} (xs : List A) (i : ℕ)
    → i < length xs
    → Gives (λ x. get_elem? xs i ≡ some x) (get_elem? xs i)
get_elem?-Gives [] i h = absurd (omega arith)
get_elem?-Gives (x ∷ xs) zero h = refl
get_elem?-Gives (x ∷ xs) (suc i) h = get_elem?-Gives xs i (omega arith)

pub some-Gives : {A : Type 0} (P : A → Type 0) (m : Option A) → Gives P m → (a : A) × (m ≡ some a)
some-Gives P none h = absurd h
some-Gives P (some a) h = (a, refl)

pub some-ne-none : {A : Type 0} {a : A} → some a ≡ none → ⊥
some-ne-none e = cc

-- If the computation does not panic, its result satisfies `P`.
abbrev pub Keeps : {A : Type 0} → (A → Type 0) → Option A → Type 0
Keeps P none = Unit
Keeps P (some a) = P a

pub of_Keeps : {A : Type 0} (P : A → Type 0) (m : Option A) (a : A) → Keeps P m → m ≡ some a → P a
of_Keeps P none a h e = cc
of_Keeps P (some b) a h e = let same : b ≡ a = cc in rw (← same) h

pub Keeps-Gives :
    {A : Type 0} (P Q : A → Type 0) (m : Option A) → Gives P m → ((a : A) → P a → Q a) → Keeps Q m
Keeps-Gives P Q none h k = tt
Keeps-Gives P Q (some a) h k = k a h

pub Keeps-bind :
    {A B : Type 0} (P : A → Type 0) (Q : B → Type 0) (m : Option A) (f : A → Option B)
    → Keeps P m
    → ((a : A) → P a → Keeps Q (f a))
    → Keeps Q (m >>= f)
Keeps-bind P Q none f h k = tt
Keeps-bind P Q (some a) f h k = k a h

pub get_elem?-Keeps :
    {A : Type 0} (xs : List A) (i : ℕ) → Keeps (λ x. get_elem? xs i ≡ some x) (get_elem? xs i)
get_elem?-Keeps [] i = tt
get_elem?-Keeps (x ∷ xs) zero = refl
get_elem?-Keeps (x ∷ xs) (suc i) = get_elem?-Keeps xs i
