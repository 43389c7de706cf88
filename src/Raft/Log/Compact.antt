-- ===== src/Raft/Log/Compact.antt =====
-- Appending and compaction keep the indices of the entries that stay.
use ferrium.Common.{
  ℕ, ◌+◌, ◌-◌, ◌≤◌, ◌<◌, ◌≡◌, some, List, length, get_elem?, arith, leb, if◌then◌else◌,
  length-append, length-drop, get_elem?-eq-none, dec_lt, get_elem?-append_left,
  get_elem?-append_right, get_elem?-drop, get_elem?-eq-some, get_last?-eq-get_elem?,
}
use ferrium.Raft.Log.{LogEntry, RaftLog, last_index, last_term, get, term_at, append, compact}
use ferrium.Raft.Log.Index.{Fits, last_index_lem, get_lem}

-- In a log that fits, the term at the last index is the last term, also if every entry was
-- compacted away.
term_at-last_index :
    (log : RaftLog) → Fits log → term_at log (last_index log) ≡ some (last_term log)
unfolding term_at last_term
term_at-last_index log f = elim (dec_lt 0 (length log.entries)) [
  | yes some_entry ↦
      let (e, p) = get_elem?-eq-some log.entries (length log.entries - 1) (omega arith) in
      rw (last_index_lem log f) (
        ground (
          arith,
          p,
          get_last?-eq-get_elem? log.entries,
          get_lem log (log.snapshot_index + length log.entries) f,
          add-sub log,
        ))
  | no empty ↦ rw (last_index_lem log f) (
      ground (
        arith,
        get_last?-eq-get_elem? log.entries,
        get_elem?-eq-none log.entries (length log.entries - 1),
      ))
]
  where
    add-sub :
        (log : RaftLog)
        → log.snapshot_index + length log.entries - log.snapshot_index - 1 ≡ length log.entries - 1
    add-sub log = omega arith

-- If the log fits after an append, lookups up to the old last index are as before, and the batch
-- has the following indices in order.
pub get-append :
    (log : RaftLog) (batch : List LogEntry) (i : ℕ)
    → Fits (append batch log).0
    → get (append batch log).0 i
      ≡ (if leb i (last_index log) then get log i else get_elem? batch (i - last_index log - 1))
unfolding append
get-append log batch i f = elim (dec_lt (log.snapshot_index + length log.entries) i) [
  | yes new ↦ ground (
    arith,
    last_index_lem log (omega (arith, length-append log.entries batch)),
    get_lem (append batch log).0 i f,
    get_elem?-append_right log.entries batch (i - log.snapshot_index - 1),
  )
  | no old ↦ ground (
    arith,
    last_index_lem log (omega (arith, length-append log.entries batch)),
    get_lem log i (omega (arith, length-append log.entries batch)),
    get_lem (append batch log).0 i f,
    get_elem?-append_left log.entries batch (i - log.snapshot_index - 1),
  )
]

module _ (log : RaftLog) (index : ℕ) (f : Fits log) where
  pub Fits-compact : Fits (compact index log)
  unfolding compact
  Fits-compact =
      ground (arith, last_index_lem log f, length-drop (index - log.snapshot_index) log.entries)

  -- In a log that fits, compaction up to any index keeps the result of every lookup behind it.
  pub get-compact : (i : ℕ) → index < i → get (compact index log) i ≡ get log i
  unfolding compact
  get-compact i lt = ground (
    arith,
    last_index_lem log f,
    get_lem log i f,
    get_lem (compact index log) i Fits-compact,
    get_elem?-drop (index - log.snapshot_index) log.entries (i - index - 1),
  )

  -- In a log that fits, compaction up to an index above the snapshot point and within the log
  -- keeps the term at every index from there on.
  term_at-compact :
      (i : ℕ)
      → index ≤ i
      → log.snapshot_index < index
      → index ≤ last_index log
      → term_at (compact index log) i ≡ term_at log i
  unfolding compact term_at
  term_at-compact i le above below =
      let bound : index < log.snapshot_index + length log.entries + 1 =
        omega (arith, last_index_lem log f) in
      let (e, p) = get_elem?-eq-some log.entries (index - log.snapshot_index - 1) (omega arith) in
      ground (arith, p, last_index_lem log f, get_lem log index f, get-compact i)

  pub last_index-compact : last_index (compact index log) ≡ last_index log
  unfolding compact
  last_index-compact = ground (
    arith,
    last_index_lem log f,
    last_index_lem (compact index log) Fits-compact,
    length-drop (index - log.snapshot_index) log.entries,
  )
