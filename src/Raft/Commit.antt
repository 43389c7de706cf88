-- ===== src/Raft/Commit.antt =====
-- How a leader of src/raft/node.rs advances its commit index.
use ferrium.Common.{
  ℕ, zero, suc, ◌+◌, ◌-◌, ◌≤◌, ◌<◌, ◌≡◌, refl, ◌⊎◌, inl, inr, arith, true, false, Bool-cases, u64,
  dec_lt, ap, some,
}
use ferrium.Raft.Log
use ferrium.Raft.Log.Index.{Fits, last_index_lem}
use ferrium.Raft.State.{leader}
use ferrium.Raft.Node.{RaftNode, majority}
use ferrium.Raft.Node.Replicate.{replicated_on, committable, commit_scan, advance_commit}
use ferrium.Raft.Frames.{advanced, advance_commit_lem}

module _ {G : Type 0} where
  -- An entry of the leader's term that a majority holds, the leader included (5.3, 5.4).
  abbrev pub IsCommittable : RaftNode G → ℕ → Type 0
  IsCommittable n i =
      (Log.term_at n.log i ≡ some n.current_term)
      × (majority n ≤ 1 + replicated_on n.progress i n.peers)

  committable→ : (n : RaftNode G) (i : ℕ) → committable n i ≡ true → IsCommittable n i
  unfolding committable
  committable→ n i h = ground arith

  →committable : (n : RaftNode G) (i : ℕ) → IsCommittable n i → committable n i ≡ true
  unfolding committable
  →committable n i h = ground arith

  -- What the scan from the top finds: the highest index of the range that can be committed, or the
  -- old commit index if there is none.
  record Found (n : RaftNode G) (lo len c : ℕ) : Type 0 where
    found : ((c ≡ n.commit_index) ⊎ ((lo ≤ c) × (c < lo + len) × (committable n c ≡ true)))
    none_above : (i : ℕ) → lo ≤ i → i < lo + len → (committable n i ≡ true) → i ≤ c

  scan-none_above :
      (n : RaftNode G) (lo len : ℕ)
      → Found n lo len (commit_scan n lo len)
      → committable n (lo + len) ≡ false
      → (i : ℕ) → lo ≤ i
      → i < lo + suc len
      → committable n i ≡ true
      → i ≤ commit_scan n lo len
  scan-none_above n lo len ih no_top i p q t = elim (dec_lt i (lo + len)) [
    | yes below ↦ ih.none_above i p below t
    | no last ↦ let e : i ≡ lo + len = omega arith in cc (ap (committable n) e, no_top, t)
  ]

  commit_scan-Found :
      (n : RaftNode G) (lo len : ℕ) → n.commit_index < lo → Found n lo len (commit_scan n lo len)
  unfolding commit_scan
  commit_scan-Found n lo zero h = record {
    found = inl refl;
    none_above = λ i p q. absurd (omega arith);
  }
  commit_scan-Found n lo (suc len) h =
      let ih = commit_scan-Found n lo len h in
      elim (Bool-cases (committable n (lo + len))) [
        | inl top ↦ rw top (record {
          found = inr (omega arith, omega arith, top);
          none_above = λ i p q _. omega arith;
        })
        | inr no_top ↦ rw no_top (record {
          found = ground (arith, ih.found);
          none_above = λ i p q t. scan-none_above n lo len ih no_top i p q t;
        })
      ]

  Found-cases :
      (n : RaftNode G) (lo len c : ℕ) → Found n lo len c → (c ≡ n.commit_index) ⊎ IsCommittable n c
  Found-cases n lo len c s = elim (s.found) [ inl e ↦ inl e | inr t ↦ inr (committable→ n c t.2) ]

  advanced_leader :
      (n : RaftNode G)
      → n.role ≡ leader
      → Fits n.log
      → n.commit_index ≤ Log.last_index n.log
      → advanced n ≡ commit_scan n (n.commit_index + 1) (Log.last_index n.log - n.commit_index)
  unfolding advanced
  advanced_leader n led fits h =
      let lo : u64 (n.commit_index + 1) ≡ n.commit_index + 1 =
        omega (arith, last_index_lem n.log fits) in
      let len : Log.last_index n.log + 1 - (n.commit_index + 1)
          ≡ Log.last_index n.log - n.commit_index =
        omega arith in
      ground (arith, lo, len)

  module _ (n : RaftNode G) (led : n.role ≡ leader) (fits : Fits n.log)
      (h : n.commit_index ≤ Log.last_index n.log) where
    scanned :
        Found n
          (n.commit_index + 1)
          (Log.last_index n.log - n.commit_index)
          (advance_commit n).commit_index
    scanned = rw (advance_commit_lem n) (
        rw (advanced_leader n led fits h) (
          commit_scan-Found n (n.commit_index + 1) (Log.last_index n.log - n.commit_index)
            (omega arith)))

    -- A leader whose log fits and whose commit index is within its log keeps its commit index, or
    -- moves it to an entry of its own term that a majority holds, itself included; never back and
    -- never past its log.
    pub advance_commit-IsCommittable :
        (((advance_commit n).commit_index ≡ n.commit_index)
          ⊎ IsCommittable n (advance_commit n).commit_index)
        × (n.commit_index ≤ (advance_commit n).commit_index)
        × ((advance_commit n).commit_index ≤ Log.last_index n.log)
    advance_commit-IsCommittable =
        (Found-cases n _ _ _ scanned, ground (arith, scanned.found), ground (arith, scanned.found))

    -- A leader whose log fits and whose commit index is within its log reaches with its new commit
    -- index every later stored index whose entry has its own term and is held by a majority.
    pub le-advance_commit :
        (i : ℕ)
        → n.commit_index < i
        → i ≤ Log.last_index n.log
        → IsCommittable n i
        → i ≤ (advance_commit n).commit_index
    le-advance_commit i lo hi t =
        scanned.none_above i (omega arith) (omega arith) (→committable n i t)
