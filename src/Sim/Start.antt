-- ===== src/Sim/Start.antt =====
-- src/sim.rs, SimCluster::new: the cluster that a simulation starts from.
use ferrium.Common.{
  ℕ, zero, suc, ◌+◌, ◌≤◌, ◌<◌, true, some, List, [], ◌∷◌, length, get_elem?, HashMap, lookup,
  insert, lookup-insert, str_eq, str_eq_iff, ◌≡◌, refl, arith, Bool-cases, inl, inr,
}
use ferrium.Raft.Message.{NodeId}
use ferrium.Raft.Node.{Rand}
use ferrium.Storage.Engine
use ferrium.Sim.{names, number, replicate, new_nodes, new}
use ferrium.Sim.Panics.{Gives}
use ferrium.Sim.Steps.{IsCluster}

length-names : (k i : ℕ) → length (names k i) ≡ k
unfolding names
length-names zero i = refl
length-names (suc k) i = omega (arith, length-names k (suc i))

length-replicate : {A : Type 0} (n : ℕ) (x : A) → length (replicate n x) ≡ n
unfolding replicate
length-replicate zero x = refl
length-replicate (suc n) x = omega (arith, length-replicate n x)

IsKnown : HashMap ℕ → NodeId → Type 0
IsKnown m id = Gives (λ j. Unit {0}) (lookup id m)

IsKnown-insert : (id k : NodeId) (j : ℕ) (m : HashMap ℕ) → IsKnown m id → IsKnown (insert k j m) id
unfolding IsKnown
IsKnown-insert id k j m h =
    rw (lookup-insert k id j m)
      (elim (Bool-cases (str_eq k id)) [ inl e ↦ rw e tt | inr e ↦ rw e h ])

IsKnown-number :
    (ids : List NodeId) (i : ℕ) (m : HashMap ℕ) (id : NodeId)
    → IsKnown m id
    → IsKnown (number ids i m) id
unfolding number
IsKnown-number [] i m id h = h
IsKnown-number (k ∷ ids) i m id h =
    IsKnown-number ids (suc i) (insert k i m) id (IsKnown-insert id k i m h)

number-IsKnown :
    (ids : List NodeId) (i : ℕ) (m : HashMap ℕ) (p : ℕ) (id : NodeId)
    → get_elem? ids p ≡ some id
    → IsKnown (number ids i m) id
unfolding number IsKnown
number-IsKnown [] i m p id e = cc
number-IsKnown (k ∷ ids) i m zero id e =
    IsKnown-number ids (suc i) (insert k i m) id
      (rw (lookup-insert k id i m) (rw ((str_eq_iff k id).1 (cc)) tt))
number-IsKnown (k ∷ ids) i m (suc p) id e = number-IsKnown ids (suc i) (insert k i m) p id e

lookup-number-lt :
    (ids : List NodeId) (i b : ℕ) (m : HashMap ℕ) (id : NodeId) (j : ℕ)
    → i + length ids ≤ b
    → ((j' : ℕ) → lookup id m ≡ some j' → j' < b)
    → lookup id (number ids i m) ≡ some j
    → j < b
unfolding number
lookup-number-lt [] i b m id j l h e = h j e
lookup-number-lt (k ∷ ids) i b m id j l h e =
    lookup-number-lt ids (suc i) b (insert k i m) id j (omega arith)
      (λ j' e'. ground (arith, lookup-insert k id i m, h j')) e

module _ (R : Rand) where
  length-new_nodes :
      (all : List NodeId) (seed i : ℕ) (ids : List NodeId)
      → length (new_nodes R all seed i ids) ≡ length ids
  unfolding new_nodes
  length-new_nodes all seed i [] = refl
  length-new_nodes all seed i (id ∷ ids) = omega (arith, length-new_nodes all seed (suc i) ids)

  pub new-IsCluster : (n seed : ℕ) → IsCluster (new R n seed)
  unfolding new lookup IsKnown
  new-IsCluster n seed =
      let ids = length-names n 0 in
      let nodes = length-new_nodes (names n 0) seed 0 (names n 0) in
      record {
        stores_size = omega (arith, length-replicate n Engine.new);
        alive_size = omega (arith, length-replicate n true);
        connected_size = omega (arith, length-replicate n true);
        ids_size = omega arith;
        known = λ i id e. number-IsKnown (names n 0) 0 [] i id e;
        in_range = λ id j e.
            lookup-number-lt (names n 0) 0 (length (new_nodes R (names n 0) seed 0 (names n 0))) []
              id j (omega arith) (λ j' e'. cc) e;
      }
