-- ===== src/Sim/Posting.antt =====
-- src/sim.rs: what a drained node gives to its store and to the bus.
use ferrium.Common.{
  ℕ, ◌<◌, Option, none, some, List, [], ◌∷◌, ◌++◌, length, All, HashMap, lookup, ◌≡◌, ◌∙◌, arith,
  Option-cases, inl, inr,
}
use ferrium.Raft.Message.{NodeId}
use ferrium.Raft.Node.{Envelope, Committed, command, snapshot}
use ferrium.Storage.Engine
use ferrium.Storage.Engine.{MemoryEngine}
use ferrium.Storage.Apply.{WriteCommand, Codec, apply}
use ferrium.Sim.{modify_at, Parcel, apply_store, apply_stores, post_to, post}
use ferrium.Sim.Panics.{Gives, Gives-bind, Gives-map}
use ferrium.Sim.Evolution.{Modified, modify_at-Modified}

unfoldable pub HasSize : {A : Type 0} → ℕ → List A → Type 0
HasSize n xs = length xs ≡ n

modify_at-HasSize :
    {A : Type 0} (N i : ℕ) (f : A → A) (xs : List A)
    → i < N
    → HasSize N xs
    → Gives (HasSize N) (modify_at i f xs)
unfolding HasSize
modify_at-HasSize N i f xs l h =
    Gives-map (Modified i f xs) (HasSize N) (modify_at i f xs)
      (modify_at-Modified i f xs (omega arith)) λ ys m. m.size ∙ h

module _ (C : Codec) (N i : ℕ) (inside : i < N) where
  apply_store-HasSize :
      (c : Committed) (stores : List MemoryEngine)
      → HasSize N stores
      → Gives (HasSize N) (apply_store C i c stores)
  unfolding apply_store HasSize
  apply_store-HasSize (command index c) stores h = by_decode (C.decode c)
    where
      by_decode :
          (d : Option WriteCommand)
          → Gives (HasSize N) (elim d as (λ _. Option (List MemoryEngine)) [
            | some cmd ↦ modify_at i (λ e. (apply cmd e).0) stores
            | none ↦ some stores
          ])
      by_decode none = h
      by_decode (some cmd) = modify_at-HasSize N i (λ e. (apply cmd e).0) stores inside h
  apply_store-HasSize (snapshot entries) stores h =
      modify_at-HasSize N i (Engine.restore entries) stores inside h

  pub apply_stores-HasSize :
      (cs : List Committed) (stores : List MemoryEngine)
      → HasSize N stores
      → Gives (HasSize N) (apply_stores C i cs stores)
  unfolding apply_stores
  apply_stores-HasSize [] stores h = h
  apply_stores-HasSize (c ∷ cs) stores h =
      Gives-bind (HasSize N) (HasSize N) (apply_store C i c stores) _
        (apply_store-HasSize c stores h) λ stores' h'. apply_stores-HasSize cs stores' h'

module _ (index : HashMap ℕ) (N : ℕ) where
  -- The receiver is a node, and the sender is known and one too.
  abbrev pub IsPosted : Parcel → Type 0
  IsPosted p = (p.to < N) × Gives (λ j. j < N) (lookup p.from index)

  All-snoc :
      (ps : List Parcel) (p : Parcel) → All IsPosted ps → IsPosted p → All IsPosted (ps ++ p ∷ [])
  All-snoc [] p h k = (k, tt)
  All-snoc (q ∷ ps) p (h, hs) k = (h, All-snoc ps p hs k)

  module _ (in_range : (id : NodeId) (j : ℕ) → lookup id index ≡ some j → j < N) (from : NodeId)
      (known : Gives (λ j. Unit {0}) (lookup from index)) where
    known_inside : Gives (λ j. j < N) (lookup from index)
    known_inside = elim (Option-cases (lookup from index)) [
      | inl e ↦ absurd (rw e at known)
      | inr (j, e) ↦ rw e (in_range from j e)
    ]

    pub post-IsPosted :
        (envs : List Envelope) (bus : List Parcel)
        → All IsPosted bus
        → Gives (All IsPosted) (post index (some from) envs bus)
    unfolding post post_to
    post-IsPosted [] bus h = h
    post-IsPosted (env ∷ envs) bus h = elim (Option-cases (lookup env.to index)) [
      | inl e ↦ rw e (post-IsPosted envs bus h)
      | inr (j, e) ↦ rw e (
          post-IsPosted envs (bus ++ record { to = j; from = from; message = env.message } ∷ [])
            (All-snoc bus _ h (in_range env.to j e, known_inside)))
    ]
