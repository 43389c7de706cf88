-- ===== src/Raft/Divergence.antt =====
-- Where src/raft does less than the Raft paper asks: what the code does on classes of inputs.
use ferrium.Common.{ℕ, ◌<◌, ◌≡◌, arith, List, ◌∷◌, true}
use ferrium.Raft.Log
use ferrium.Raft.Log.{LogEntry, RaftLog}
use ferrium.Raft.Log.Index.{Fits}

-- A log that fits, compacted beyond index 1, matches previous index 0 for every term; splicing a
-- nonempty message there drops all its entries and puts the message's, meant for index 1 on,
-- behind the snapshot point.
pub splice-below_snapshot :
    (log : RaftLog) (e : LogEntry) (rest : List LogEntry) (t : ℕ)
    → 1 < log.snapshot_index
    → Fits log
    → (Log.matches log 0 t ≡ true)
      × ((Log.splice 0 (e ∷ rest) log).0 ≡ record log { entries = e ∷ rest })
unfolding Log.splice Log.splice_loop Log.agrees Log.truncate_from Log.matches Log.term_at
splice-below_snapshot log e rest t h f = ground arith
