-- ===== src/Raft/Log/Protect.antt =====
-- Entries up to a given index survive a `splice` whose message agrees with them.
use ferrium.Common.{
  ℕ, zero, suc, ◌+◌, ◌-◌, ◌≤◌, ◌<◌, ◌≡◌, refl, ap, List, [], ◌∷◌, length, take, drop, arith,
  u64_mod, length-drop, get_elem?-take, get_elem?-drop, dec_le, true,
}
use ferrium.Raft.Log.{LogEntry, RaftLog, get, term_at, matches, splice}
use ferrium.Raft.Log.Index.{Fits, get_lem, last_index_lem}
use ferrium.Raft.Log.Splice.{merge, splice-eq-merge}
use ferrium.Raft.Log.Merge.{
  Covers, Fits-splice, get-splice_prefix, get-merged_suffix, entries-splice, length-merged,
}

take-merge_Covers :
    (c : ℕ) (es is : List LogEntry)
    → c ≤ length es
    → Covers es (take c is)
    → take c (merge es is) ≡ take c es
unfolding merge
take-merge_Covers zero es is h v = refl
take-merge_Covers (suc c) [] is h v = absurd (omega arith)
take-merge_Covers (suc c) (e ∷ es) [] h v = refl
take-merge_Covers (suc c) (e ∷ es) (i ∷ is) h v = ground (arith, take-merge_Covers c es is)

length-merge_Covers :
    (c : ℕ) (es is : List LogEntry)
    → c ≤ length es
    → Covers es (take c is)
    → c ≤ length (merge es is)
unfolding merge
length-merge_Covers zero es is h v = omega arith
length-merge_Covers (suc c) [] is h v = absurd (omega arith)
length-merge_Covers (suc c) (e ∷ es) [] h v = h
length-merge_Covers (suc c) (e ∷ es) (i ∷ is) h v = ground (arith, length-merge_Covers c es is)

-- A log that matches at an index that is not compacted away reaches that index.
pub matches-le :
    (log : RaftLog) (i t : ℕ)
    → log.snapshot_index ≤ i
    → Fits log
    → matches log i t ≡ true
    → i ≤ log.snapshot_index + length log.entries
unfolding matches term_at get
matches-le log i t lo f h = ground (arith, last_index_lem log f)

module _ (log : RaftLog) (c prev : ℕ) (incoming : List LogEntry) (lo : log.snapshot_index ≤ prev)
    (hi : prev ≤ log.snapshot_index + length log.entries)
    (fits : log.snapshot_index + length log.entries + length incoming + 1 < u64_mod)
    (end : c ≤ log.snapshot_index + length log.entries)
    (agrees : Covers
      (drop (prev - log.snapshot_index) log.entries)
      (take (c - prev) incoming)) where
  abbrev rest : List LogEntry
  rest = drop (prev - log.snapshot_index) log.entries

  pub le-splice : c ≤ log.snapshot_index + length (splice prev incoming log).0.entries
  le-splice = rw (entries-splice log prev incoming lo hi fits) (
      omega (
        arith,
        length-merged log prev incoming lo hi fits,
        length-drop (prev - log.snapshot_index) log.entries,
        length-merge_Covers (c - prev) rest incoming
            (omega (arith, length-drop (prev - log.snapshot_index) log.entries)) agrees,
      ))

  pub get-splice_Covers : (i : ℕ) → i ≤ c → get (splice prev incoming log).0 i ≡ get log i
  get-splice_Covers i h = elim (dec_le i prev) [
    | yes before ↦ get-splice_prefix log prev incoming lo hi fits i before
    | no after ↦
        let k = prev - log.snapshot_index in
        let j = i - prev - 1 in
        let e : i - log.snapshot_index - 1 ≡ k + j = omega arith in
        let room = length-drop k log.entries in
        rw
          (
            get_lem (splice prev incoming log).0 i (Fits-splice log prev incoming lo hi fits),
            get_lem log i (omega arith),
          )
          (rw (splice-eq-merge log prev incoming lo hi fits) (
            ground (
              arith,
              e,
              get-merged_suffix log prev incoming lo hi fits j,
              get_elem?-take (c - prev) (merge rest incoming) j,
              get_elem?-take (c - prev) rest j,
              take-merge_Covers (c - prev) rest incoming,
              get_elem?-drop k log.entries j,
            )))
  ]

pub snapshot_index-splice :
    (log : RaftLog) (prev : ℕ) (incoming : List LogEntry)
    → log.snapshot_index ≤ prev
    → prev ≤ log.snapshot_index + length log.entries
    → log.snapshot_index + length log.entries + length incoming + 1 < u64_mod
    → (splice prev incoming log).0.snapshot_index ≡ log.snapshot_index
snapshot_index-splice log prev incoming lo hi fits =
    ap (λ (l : RaftLog). l.snapshot_index) (splice-eq-merge log prev incoming lo hi fits)
