-- ===== src/Raft/Log/Merge.antt =====
-- What a successful AppendEntries leaves in the log: consequences of `splice-eq-merge`.
use ferrium.Common.{
  ℕ, zero, suc, ◌+◌, ◌-◌, ◌≤◌, ◌<◌, ◌≡◌, refl, ap, List, [], ◌∷◌, ◌++◌, length, get_elem?, take,
  drop, arith, u64_mod, length-append, length-drop, get_elem?-append_left, get_elem?-append_right,
  get_elem?-take, length-take_of_le, take-append-drop, take-append_of_length, drop-append_of_length,
  take-length,
}
use mathlib.Core.Option
use ferrium.Raft.Log.{LogEntry, RaftLog, get, term_at, splice}
use ferrium.Raft.Log.Index.{Fits, entry_term, get_lem, term_at_lem}
use ferrium.Raft.Log.Splice.{merge, splice-eq-merge}

pub length-merge : (es is : List LogEntry) → length is ≤ length (merge es is)
unfolding merge
length-merge es [] = omega arith
length-merge [] (i ∷ is) = omega arith
length-merge (e ∷ es) (i ∷ is) = ground (arith, length-merge es is)

pub length-merge-le : (es is : List LogEntry) → length (merge es is) ≤ length es + length is
unfolding merge
length-merge-le es [] = omega arith
length-merge-le [] (i ∷ is) = omega arith
length-merge-le (e ∷ es) (i ∷ is) = ground (arith, length-merge-le es is)

term-merge :
    (es is : List LogEntry) (j : ℕ)
    → j < length is
    → Option.map entry_term (get_elem? (merge es is) j) ≡ Option.map entry_term (get_elem? is j)
unfolding merge
term-merge es [] j h = elim h [ ]
term-merge [] (i ∷ is) j h = refl
term-merge (e ∷ es) (i ∷ is) zero h = ground arith
term-merge (e ∷ es) (i ∷ is) (suc j) h = ground (arith, term-merge es is j)

-- Two lists of entries agree where their terms do: the log matching property, which a single
-- leader per term gives.
abbrev pub Matching : List LogEntry → List LogEntry → Type 0
Matching (e ∷ es) (i ∷ is) = (e.term ≡ i.term → e ≡ i) × Matching es is
Matching _ _ = Unit

-- Every entry of the second list has a partner of the same term in the first.
abbrev pub Covers : List LogEntry → List LogEntry → Type 0
Covers es [] = Unit
Covers [] (i ∷ is) = ⊥
Covers (e ∷ es) (i ∷ is) = (e.term ≡ i.term) × Covers es is

merge-Covers : (es is : List LogEntry) → Covers es is → merge es is ≡ es
unfolding merge
merge-Covers es [] c = refl
merge-Covers [] (i ∷ is) c = absurd c
merge-Covers (e ∷ es) (i ∷ is) c = ground (arith, merge-Covers es is c.1)

take-merge : (es is : List LogEntry) → Matching es is → take (length is) (merge es is) ≡ is
unfolding merge
take-merge es [] m = refl
take-merge [] (i ∷ is) m = rw (take-length is)
take-merge (e ∷ es) (i ∷ is) m = ground (arith, take-length is, take-merge es is m.1)

merge_self : (is : List LogEntry) → merge is is ≡ is
unfolding merge
merge_self [] = refl
merge_self (i ∷ is) = ground (arith, merge_self is)

merge-merge : (es is : List LogEntry) → merge (merge es is) is ≡ merge es is
unfolding merge
merge-merge es [] = refl
merge-merge [] (i ∷ is) = merge_self (i ∷ is)
merge-merge (e ∷ es) (i ∷ is) = ground (arith, merge-merge es is, merge_self is)

module _ (log : RaftLog) (prev : ℕ) (incoming : List LogEntry) (lo : log.snapshot_index ≤ prev)
    (hi : prev ≤ log.snapshot_index + length log.entries)
    (fits : log.snapshot_index + length log.entries + length incoming + 1 < u64_mod) where
  abbrev pub k : ℕ
  k = prev - log.snapshot_index

  abbrev pub merged : List LogEntry
  merged = take k log.entries ++ merge (drop k log.entries) incoming

  pub length-merged : length merged ≡ k + length (merge (drop k log.entries) incoming)
  length-merged = omega (
    arith,
    length-append (take k log.entries) (merge (drop k log.entries) incoming),
    length-take_of_le k log.entries,
  )

  pub length-merged-le : length merged ≤ length log.entries + length incoming
  length-merged-le = omega (
    arith,
    length-merged,
    length-merge-le (drop k log.entries) incoming,
    length-drop k log.entries,
  )

  pub Fits-splice : Fits (splice prev incoming log).0
  Fits-splice = rw (splice-eq-merge log prev incoming lo hi fits) (omega (arith, length-merged-le))

  pub entries-splice : (splice prev incoming log).0.entries ≡ merged
  entries-splice = ap (λ (l : RaftLog). l.entries) (splice-eq-merge log prev incoming lo hi fits)

  get-merged_prefix : (i : ℕ) → i < k → get_elem? merged i ≡ get_elem? log.entries i
  get-merged_prefix i h = ground (
    arith,
    length-take_of_le k log.entries,
    get_elem?-append_left (take k log.entries) (merge (drop k log.entries) incoming) i,
    get_elem?-take k log.entries i,
  )

  pub get-merged_suffix :
      (j : ℕ) → get_elem? merged (k + j) ≡ get_elem? (merge (drop k log.entries) incoming) j
  get-merged_suffix j =
      let e : k + j - k ≡ j = omega arith in
      ground (
        arith,
        e,
        length-take_of_le k log.entries,
        get_elem?-append_right (take k log.entries) (merge (drop k log.entries) incoming) (k + j),
      )

  offset : (j : ℕ) → prev + 1 + j - log.snapshot_index - 1 ≡ k + j
  offset j = omega arith

  -- Entries up to `prev_index` are untouched.
  pub get-splice_prefix : (i : ℕ) → i ≤ prev → get (splice prev incoming log).0 i ≡ get log i
  get-splice_prefix i h =
      rw (get_lem (splice prev incoming log).0 i Fits-splice, get_lem log i (omega arith))
        (rw (splice-eq-merge log prev incoming lo hi fits)
          (ground (arith, get-merged_prefix (i - log.snapshot_index - 1))))

  -- After `prev_index` the log holds the leader's terms, in order.
  pub term_at-splice :
      (j : ℕ)
      → j < length incoming
      → term_at (splice prev incoming log).0 (prev + 1 + j)
        ≡ Option.map entry_term (get_elem? incoming j)
  term_at-splice j h = rw (splice-eq-merge log prev incoming lo hi fits) (
      ground (
        arith,
        term_at_lem (record log { entries = merged }) (prev + 1 + j)
            (omega (arith, length-merged-le)),
        get-merged_suffix j,
        term-merge (drop k log.entries) incoming j,
      ))

  -- ... and the leader's entries themselves, if equal terms at equal indices mean equal entries.
  pub get-splice :
      (j : ℕ)
      → j < length incoming
      → Matching (drop k log.entries) incoming
      → get (splice prev incoming log).0 (prev + 1 + j) ≡ get_elem? incoming j
  get-splice j h m = rw (get_lem (splice prev incoming log).0 (prev + 1 + j) Fits-splice) (
      rw (splice-eq-merge log prev incoming lo hi fits) (
        ground (
          arith,
          offset j,
          get-merged_suffix j,
          take-merge (drop k log.entries) incoming m,
          get_elem?-take (length incoming) (merge (drop k log.entries) incoming) j,
        )))

  -- For a previous index between the snapshot point and the end of the log, and room for indices
  -- below 2^64, entries whose terms the log already has at their indices leave the log unchanged:
  -- a late or repeated message removes nothing.
  splice-Covers : Covers (drop k log.entries) incoming → (splice prev incoming log).0 ≡ log
  splice-Covers c =
      rw (splice-eq-merge log prev incoming lo hi fits)
        (rw (merge-Covers (drop k log.entries) incoming c, take-append-drop k log.entries))

-- For a previous index between the snapshot point and the end of the log, and room for indices
-- below 2^64, receiving the same entries twice leaves the log that receiving them once does.
pub splice-splice :
    (log : RaftLog) (prev : ℕ) (incoming : List LogEntry)
    → log.snapshot_index ≤ prev
    → prev ≤ log.snapshot_index + length log.entries
    → log.snapshot_index + length log.entries + length incoming + length incoming + 1 < u64_mod
    → (splice prev incoming (splice prev incoming log).0).0 ≡ (splice prev incoming log).0
splice-splice log prev incoming lo hi fits =
    let k = prev - log.snapshot_index in
    let tail = merge (drop k log.entries) incoming in
    let merged = take k log.entries ++ tail in
    let l : length (take k log.entries) ≡ k = length-take_of_le k log.entries (omega arith) in
    let bound = length-merged-le log prev incoming lo hi (omega arith) in
    let room = length-append (take k log.entries) tail in
    rw (splice-eq-merge log prev incoming lo hi (omega arith)) (
      rw
        (splice-eq-merge (record log { entries = merged }) prev incoming lo (omega arith)
          (omega arith))
        (rw (
          take-append_of_length k (take k log.entries) tail l,
          drop-append_of_length k (take k log.entries) tail l,
          merge-merge (drop k log.entries) incoming,
        )))
