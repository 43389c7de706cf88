-- ===== src/Sim/Evolution.antt =====
-- src/sim.rs: what happens to the nodes of a cluster is what happens to nodes driven by their
-- inputs, and the loops never index out of range.
use ferrium.Common.{
  dec_lt, ℕ, zero, suc, ◌≤◌, ◌<◌, Bool, true, false, if◌then◌else◌, ◌==◌, none, some, List, [], ◌∷◌,
  ◌++◌, length, get_elem?, All, ◌≡◌, refl, sym, ap, ◌∙◌, arith, Bool-cases, inl, inr, ==_iff,
}
use mathlib.Core.Option
use ferrium.Raft.Node.{Rand, RaftNode}
use ferrium.Raft.Run.{Event, ticked, received, proposed, drained, react, run}
use ferrium.Sim.Panics.{Gives, Gives-bind, Keeps, Keeps-Gives}
use ferrium.Sim.{modify_at}

-- Only the element at `j` changes.
pub record Modified {A : Type 0} (j : ℕ) (f : A → A) (xs ys : List A) : Type 0 where
  pub size : length ys ≡ length xs
  pub moved :
      (i : ℕ) (x : A) → get_elem? xs i ≡ some x → get_elem? ys i ≡ some (if i == j then f x else x)

suc_== : (i j : ℕ) → (i == j) ≡ (suc i == suc j)
suc_== i j = ground arith

pub modify_at-Modified :
    {A : Type 0} (j : ℕ) (f : A → A) (xs : List A)
    → j < length xs
    → Gives (Modified j f xs) (modify_at j f xs)
unfolding modify_at
modify_at-Modified j f [] h = absurd (omega arith)
modify_at-Modified zero f (x ∷ xs) h = record {
  size = refl;
  moved = elim [ zero ↦ λ y e. ap (Option.map f) e | suc i ↦ λ y e. ground arith ];
}
modify_at-Modified (suc j) f (x ∷ xs) h =
    Gives-bind (Modified j f xs) (Modified (suc j) f (x ∷ xs)) (modify_at j f xs) _
      (modify_at-Modified j f xs (omega arith))
      λ ys m. record {
        size = omega (arith, m.size);
        moved = elim [
          | zero ↦ λ y e. ground arith
          | suc i ↦ λ y e. m.moved i y e ∙ ap (λ b. some (if b then f y else y)) (suc_== i j)
        ];
      }

modify_at-beyond :
    {A : Type 0} (j : ℕ) (f : A → A) (xs : List A) → length xs ≤ j → modify_at j f xs ≡ none
unfolding modify_at
modify_at-beyond j f [] h = refl
modify_at-beyond zero f (x ∷ xs) h = absurd (omega arith)
modify_at-beyond (suc j) f (x ∷ xs) h = rw (modify_at-beyond j f xs (omega arith)) refl

pub modify_at-Keeps :
    {A : Type 0} (j : ℕ) (f : A → A) (xs : List A) → Keeps (Modified j f xs) (modify_at j f xs)
modify_at-Keeps j f xs = elim (dec_lt j (length xs)) [
  | yes l ↦
      Keeps-Gives (Modified j f xs) (Modified j f xs) (modify_at j f xs)
        (modify_at-Modified j f xs l) (λ ys m. m)
  | no beyond ↦ rw (modify_at-beyond j f xs (omega arith)) tt
]

-- A node does this by itself, whatever the network does.
abbrev pub IsLocal : Event → Type 0
IsLocal ticked = Unit
IsLocal (received from message) = ⊥
IsLocal (proposed command) = ⊥
IsLocal drained = Unit

All-append {ℓ κ} :
    {A : Type ℓ} (P : A → Type κ) (xs ys : List A) → All P xs → All P ys → All P (xs ++ ys)
All-append P [] ys h k = k
All-append P (x ∷ xs) ys (h, hs) k = (h, All-append P xs ys hs k)

run-append :
    (R : Rand) (xs ys : List Event) (n : RaftNode R.StdRng)
    → run R (xs ++ ys) n ≡ run R ys (run R xs n)
unfolding run
run-append R [] ys n = refl
run-append R (x ∷ xs) ys n = run-append R xs ys (react R x n)

module _ (R : Rand) (alive connected : List Bool) where
  open R use {StdRng}

  -- Each node is driven by inputs of its own: a crashed one by none, and one that is cut off by
  -- none from the network.
  pub record Evolves (ns ns' : List (RaftNode StdRng)) : Type 0 where
    pub size : length ns' ≡ length ns
    pub events : ℕ → List Event
    pub moves :
        (i : ℕ) (n : RaftNode StdRng)
        → get_elem? ns i ≡ some n
        → get_elem? ns' i ≡ some (run R (events i) n)
    pub crashed : (i : ℕ) → get_elem? alive i ≡ some false → events i ≡ []
    pub cut_off : (i : ℕ) → get_elem? connected i ≡ some false → All IsLocal (events i)

  pub Evolves-refl : (ns : List (RaftNode StdRng)) → Evolves ns ns
  unfolding run
  Evolves-refl ns = record {
    size = refl;
    events = λ i. [];
    moves = λ i n e. e;
    crashed = λ i e. refl;
    cut_off = λ i e. tt;
  }

  pub Evolves-trans : {a b c : List (RaftNode StdRng)} → Evolves a b → Evolves b c → Evolves a c
  Evolves-trans x y = record {
    size = y.size ∙ x.size;
    events = λ i. x.events i ++ y.events i;
    moves = λ i n e.
        y.moves i (run R (x.events i) n) (x.moves i n e)
        ∙ ap some (sym (run-append R (x.events i) (y.events i) n));
    crashed = λ i e. rw (x.crashed i e) (y.crashed i e);
    cut_off = λ i e. All-append IsLocal (x.events i) (y.events i) (x.cut_off i e) (y.cut_off i e);
  }

  -- One input of one node that is up, and connected if the input comes from the network.
  pub Evolves-one :
      (j : ℕ) (ev : Event) (f : RaftNode StdRng → RaftNode StdRng) (ns ns' : List (RaftNode StdRng))
      → get_elem? alive j ≡ some true
      → (get_elem? connected j ≡ some false → IsLocal ev)
      → ((n : RaftNode StdRng) → get_elem? ns j ≡ some n → f n ≡ react R ev n)
      → Modified j f ns ns'
      → Evolves ns ns'
  unfolding run
  Evolves-one j ev f ns ns' up local same m = record {
    size = m.size;
    events = λ i. if i == j then ev ∷ [] else [];
    moves = λ i n e. m.moved i n e ∙ elim (Bool-cases (i == j)) [
      | inl b ↦ rw b (ap some (same n (rw ((==_iff i j).0 b) at e)))
      | inr b ↦ rw b refl
    ];
    crashed = λ i e. elim (Bool-cases (i == j)) [
      | inl b ↦ let e' = rw ((==_iff i j).0 b) at e in absurd (ground (arith, e', up))
      | inr b ↦ rw b refl
    ];
    cut_off = λ i e. elim (Bool-cases (i == j)) [
      | inl b ↦ rw b (local (rw ((==_iff i j).0 b) at e), tt)
      | inr b ↦ rw b tt
    ];
  }
