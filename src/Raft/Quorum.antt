-- ===== src/Raft/Quorum.antt =====
-- Two majorities of one cluster of src/raft/node.rs share a member.
use ferrium.Common.{
  ℕ, ◌+◌, ◌≤◌, ◌<◌, ◌≡◌, ap, arith, List, [], ◌∷◌, length, true, false, ◌&&◌, if◌then◌else◌,
  Bool-cases, inl, inr, str_eq, str_eq_iff,
}
use ferrium.Raft.Message.{NodeId}
use ferrium.Raft.State.{contains}
use ferrium.Raft.Node.{RaftNode, majority}
use ferrium.Raft.Election.{Distinct}

-- Every name of the first list is in the second.
abbrev pub Within : List NodeId → List NodeId → Type 0
Within [] c = Unit
Within (v ∷ vs) c = (contains c v ≡ true) × Within vs c

-- The members of `c` in `vs`.
present : List NodeId → List NodeId → ℕ
present vs [] = 0
present vs (m ∷ c) = (if contains vs m then 1 else 0) + present vs c

present_mono : (v : NodeId) (vs c : List NodeId) → present vs c ≤ present (v ∷ vs) c
unfolding present contains
present_mono v vs [] = omega arith
present_mono v vs (m ∷ c) = ground (arith, present_mono v vs c)

-- Adding a new name of the cluster adds a member.
present-cons :
    (v : NodeId) (vs c : List NodeId)
    → contains vs v ≡ false
    → contains c v ≡ true
    → present vs c + 1 ≤ present (v ∷ vs) c
unfolding present contains
present-cons v vs [] fresh h = cc
present-cons v vs (m ∷ c) fresh h = elim (Bool-cases (str_eq v m)) [
  | inl same ↦
      let e : v ≡ m = (str_eq_iff v m).0 same in
      ground (arith, present_mono v vs c, ap (contains vs) e)
  | inr other ↦ ground (arith, other, str_eq_iff m v, str_eq_iff v m, present-cons v vs c fresh)
]

length-le-present : (vs c : List NodeId) → Distinct vs → Within vs c → length vs ≤ present vs c
length-le-present [] c d w = omega arith
length-le-present (v ∷ vs) c d w =
    omega (arith, present-cons v vs c d.0 w.0, length-le-present vs c d.1 w.1)

-- More members than the cluster has: one is in both.
common :
    (vs ws c : List NodeId)
    → length c < present vs c + present ws c
    → (m : NodeId) × (contains vs m ≡ true) × (contains ws m ≡ true)
unfolding present
common vs ws [] h = absurd (omega arith)
common vs ws (m ∷ c) h = elim (Bool-cases (contains vs m && contains ws m)) [
  | inl both ↦ (m, ground (arith, both), ground (arith, both))
  | inr not_both ↦ common vs ws c (ground (arith, not_both))
]

-- Two lists of distinct voters from a node's cluster, each of at least a majority, have a voter in
-- common.
pub majority-common :
    {G : Type 0} (n : RaftNode G) (vs ws : List NodeId)
    → Distinct vs
    → Distinct ws
    → Within vs (n.id ∷ n.peers)
    → Within ws (n.id ∷ n.peers)
    → majority n ≤ length vs
    → majority n ≤ length ws
    → (m : NodeId) × (contains vs m ≡ true) × (contains ws m ≡ true)
unfolding majority
majority-common n vs ws dv dw iv iw mv mw = common vs ws (n.id ∷ n.peers) (
    omega (
      arith,
      length-le-present vs (n.id ∷ n.peers) dv iv,
      length-le-present ws (n.id ∷ n.peers) dw iw,
    ))
