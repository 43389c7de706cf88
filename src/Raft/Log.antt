-- ===== src/Raft/Log.antt =====
-- src/raft/log.rs: the replicated log. Indices are 1-based; `entries` follow the snapshot point.
-- A method that mutates the log returns the new log, beside its result where it has one.
pub mod Index
pub mod Compact
pub mod Splice
pub mod Merge
pub mod Protect
use ferrium.Common.{
  ℕ, ◌+◌, ◌-◌, Bool, true, false, ◌||◌, Option, none, some, List, [], ◌∷◌, ◌++◌, Bytes, length,
  get_elem?, get_last?, take, drop, leb, ltb, ◌==◌, if◌then◌else◌, u64,
}
use mathlib.Core.Option

pub record LogEntry : Type 0 where
  pub term : ℕ
  pub command : Bytes

pub record RaftLog : Type 0 where
  pub entries : List LogEntry
  pub snapshot_index : ℕ
  pub snapshot_term : ℕ

abbrev pub new : RaftLog
new = record { entries = []; snapshot_index = 0; snapshot_term = 0 }

unfoldable pub last_index : RaftLog → ℕ
last_index log = u64 (log.snapshot_index + length log.entries)

unfoldable pub last_term : RaftLog → ℕ
last_term log = elim (get_last? log.entries) [ some e ↦ e.term | none ↦ log.snapshot_term ]

unfoldable pub first_index : RaftLog → ℕ
first_index log = u64 (log.snapshot_index + 1)

unfoldable pub get : RaftLog → ℕ → Option LogEntry
unfolding last_index
get log index =
    if leb index log.snapshot_index || ltb (last_index log) index
    then none
    else get_elem? log.entries (index - log.snapshot_index - 1)

unfoldable pub term_at : RaftLog → ℕ → Option ℕ
unfolding get
term_at log index =
    if index == log.snapshot_index
    then some log.snapshot_term
    else Option.map (λ (e : LogEntry). e.term) (get log index)

unfoldable pub append : List LogEntry → RaftLog → RaftLog × ℕ
unfolding last_index
append new_entries log =
    let log' : RaftLog = record log { entries = log.entries ++ new_entries } in
    (log', last_index log')

-- `get(offset..)` is `None` past the end; `drop` is empty there.
unfoldable pub entries_from : RaftLog → ℕ → List LogEntry
entries_from log from =
    if leb from log.snapshot_index
    then log.entries
    else drop (from - log.snapshot_index - 1) log.entries

unfoldable pub matches : RaftLog → ℕ → ℕ → Bool
unfolding term_at
matches log index term = elim (term_at log index) [ some t ↦ t == term | none ↦ index == 0 ]

unfoldable pub truncate_from : ℕ → RaftLog → RaftLog
truncate_from index log =
    if leb index log.snapshot_index
    then record log { entries = [] }
    else record log { entries = take (index - log.snapshot_index - 1) log.entries }

-- `term_at(next) == Some(entry.term)`
unfoldable pub agrees : RaftLog → ℕ → LogEntry → Bool
unfolding term_at
agrees log next entry = elim (term_at log next) [ some t ↦ t == entry.term | none ↦ false ]

-- The loop of `splice`, from its current `next`: entries that agree are skipped; the first that
-- does not truncates the log and goes in with all that follow it.
unfoldable pub splice_loop : RaftLog → ℕ → List LogEntry → RaftLog
splice_loop log next [] = log
splice_loop log next (entry ∷ rest) = elim (agrees log next entry) [
  | true ↦ splice_loop log (u64 (next + 1)) rest
  | false ↦
      let kept = truncate_from next log in
      record kept { entries = (kept.entries ++ entry ∷ []) ++ rest }
]

unfoldable pub splice : ℕ → List LogEntry → RaftLog → RaftLog × ℕ
splice prev_index incoming log =
    let log' = splice_loop log (u64 (prev_index + 1)) incoming in (log', last_index log')

unfoldable pub install_snapshot : ℕ → ℕ → RaftLog → RaftLog
install_snapshot last_included_index last_included_term log = record {
  entries = [];
  snapshot_index = last_included_index;
  snapshot_term = last_included_term;
}

unfoldable pub compact : ℕ → RaftLog → RaftLog
unfolding last_index term_at
compact index log =
    if leb index log.snapshot_index || ltb (last_index log) index then log else record {
      entries = drop (index - log.snapshot_index) log.entries;
      snapshot_index = index;
      snapshot_term = Option.get_or (term_at log index) log.snapshot_term;
    }
