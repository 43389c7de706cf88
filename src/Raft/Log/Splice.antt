-- ===== src/Raft/Log/Splice.antt =====
-- `splice` against a reference definition on lists: keep the entries up to `prev_index`, then
-- merge. Its index arithmetic, truncation and early exit implement exactly that.
use ferrium.Common.{
  ℕ, ◌+◌, ◌-◌, ◌≤◌, ◌<◌, ◌≡◌, refl, List, [], ◌∷◌, ◌++◌, false, length, take, drop, arith,
  if◌then◌else◌, u64_mod, length-append, length-drop, get_elem?-append_right, append_assoc,
  get_elem?-eq-none, append-nil, take-append, take-append-drop, length-take_of_le, ◌==◌,
}
use ferrium.Raft.Log.{LogEntry, RaftLog, agrees, truncate_from, splice_loop, splice}
use ferrium.Raft.Log.Index.{Fits, term_at_lem}

-- The reference: what remains of the log after `prev_index` against the leader's entries. Entries
-- of equal term stay; from the first that differs on, the leader's replace them.
unfoldable pub merge : List LogEntry → List LogEntry → List LogEntry
merge es [] = es
merge [] (i ∷ is) = i ∷ is
merge (e ∷ es) (i ∷ is) = let rest = merge es is in if e.term == i.term then e ∷ rest else i ∷ is

abbrev at : List LogEntry → RaftLog → RaftLog
at es log = record log { entries = es }

module _ (log : RaftLog) (pre : List LogEntry) where
  abbrev here : ℕ
  here = log.snapshot_index + length pre + 1

  here-sub : log.snapshot_index + length pre + 1 - log.snapshot_index - 1 ≡ length pre
  here-sub = omega arith

  agrees-nil : (i : LogEntry) → Fits (at pre log) → agrees (at pre log) here i ≡ false
  unfolding agrees
  agrees-nil i f = ground (
    arith,
    term_at_lem (at pre log) here f,
    get_elem?-eq-none pre (here - log.snapshot_index - 1),
  )

  agrees-cons :
      (e i : LogEntry) (es : List LogEntry)
      → Fits (at (pre ++ e ∷ es) log)
      → agrees (at (pre ++ e ∷ es) log) here i ≡ (e.term == i.term)
  unfolding agrees
  agrees-cons e i es f = ground (
    arith,
    term_at_lem (at (pre ++ e ∷ es) log) here f,
    get_elem?-append_right pre (e ∷ es) (here - log.snapshot_index - 1),
  )

  truncate_from-append : (es : List LogEntry) → truncate_from here (at (pre ++ es) log) ≡ at pre log
  unfolding truncate_from
  truncate_from-append es = ground (arith, here-sub, take-append pre es)

splice_loop-eq-merge :
    (log : RaftLog) (pre es incoming : List LogEntry)
    → log.snapshot_index + length pre + length es + length incoming + 1 < u64_mod
    → splice_loop (at (pre ++ es) log) (log.snapshot_index + length pre + 1) incoming
      ≡ at (pre ++ merge es incoming) log
unfolding splice_loop merge
splice_loop-eq-merge log pre es [] f = refl
splice_loop-eq-merge log pre [] (i ∷ is) f = ground (
  arith,
  append-nil pre,
  agrees-nil log pre i,
  truncate_from-append log pre [],
  append_assoc pre (i ∷ []) is,
)
splice_loop-eq-merge log pre (e ∷ es) (i ∷ is) f =
    let fits : Fits (at (pre ++ e ∷ es) log) = omega (arith, length-append pre (e ∷ es)) in
    ground (
      arith,
      agrees-cons log pre e i es fits,
      truncate_from-append log pre (e ∷ es),
      append_assoc pre (i ∷ []) is,
      append_assoc pre (e ∷ []) es,
      append_assoc pre (e ∷ []) (merge es is),
      length-append pre (e ∷ []),
      splice_loop-eq-merge log (pre ++ e ∷ []) es is,
    )

-- For a previous index between the snapshot point and the end of the log, and room for indices
-- below 2^64, splice leaves the entries up to the previous index, followed by the merge of the
-- rest of the log with the leader's entries; the snapshot point stays.
pub splice-eq-merge :
    (log : RaftLog) (prev_index : ℕ) (incoming : List LogEntry)
    → log.snapshot_index ≤ prev_index
    → prev_index ≤ log.snapshot_index + length log.entries
    → log.snapshot_index + length log.entries + length incoming + 1 < u64_mod
    → (splice prev_index incoming log).0 ≡ record log {
      entries =
          take (prev_index - log.snapshot_index) log.entries
          ++ merge (drop (prev_index - log.snapshot_index) log.entries) incoming;
    }
unfolding splice
splice-eq-merge log prev incoming lo hi f =
    let k = prev - log.snapshot_index in
    let l : length (take k log.entries) ≡ k = length-take_of_le k log.entries (omega arith) in
    ground (
      arith,
      l,
      length-drop k log.entries,
      take-append-drop k log.entries,
      splice_loop-eq-merge log (take k log.entries) (drop k log.entries) incoming,
    )
