-- ===== src/Raft/Log/Index.antt =====
-- How the indices of a `RaftLog` address its entries: the last index and term, lookups, appends
-- and compaction.
use ferrium.Common.{
  ℕ, ◌+◌, ◌-◌, ◌<◌, ◌≡◌, none, length, get_elem?, arith, leb, if◌then◌else◌, u64_mod,
  get_elem?-eq-none,
}
use mathlib.Core.Option
use ferrium.Raft.Log.{LogEntry, RaftLog, last_index, get, term_at}

-- The indices of the log, and the one after it, are below 2^64.
abbrev pub Fits : RaftLog → Type 0
Fits log = log.snapshot_index + length log.entries + 1 < u64_mod

abbrev pub entry_term : LogEntry → ℕ
entry_term e = e.term

pub last_index_lem :
    (log : RaftLog) → Fits log → last_index log ≡ log.snapshot_index + length log.entries
unfolding last_index
last_index_lem log f = omega arith

-- A lookup, without the test against the last index.
pub get_lem :
    (log : RaftLog) (i : ℕ)
    → Fits log
    → get log i ≡ (
        if leb i log.snapshot_index
        then none
        else get_elem? log.entries (i - log.snapshot_index - 1))
unfolding get
get_lem log i f = ground (arith, get_elem?-eq-none log.entries (i - log.snapshot_index - 1))

pub term_at_lem :
    (log : RaftLog) (i : ℕ)
    → Fits log
    → log.snapshot_index < i
    → term_at log i ≡ Option.map entry_term (get_elem? log.entries (i - log.snapshot_index - 1))
unfolding term_at
term_at_lem log i f lt = ground (arith, get_lem log i f)
