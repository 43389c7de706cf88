-- ===== src/Examples/Logs.antt =====
-- The theorems on the log at concrete inputs.
use ferrium.Common.{◌≡◌, refl, arith, [], ◌∷◌, ◌++◌, take, drop}
use ferrium.Raft.Log
use ferrium.Raft.Log.Splice.{merge, splice-eq-merge}
use ferrium.Raft.Log.Merge.{splice-splice}
use ferrium.Examples.Nodes.{entry, two_entries}

splice-eq-merge_example :
    (Log.splice 1 (entry 2 ∷ entry 2 ∷ []) two_entries).0 ≡ record two_entries {
      entries =
          take 1 two_entries.entries ++ merge (drop 1 two_entries.entries) (entry 2 ∷ entry 2 ∷ []);
    }
splice-eq-merge_example =
    splice-eq-merge two_entries 1 (entry 2 ∷ entry 2 ∷ []) (omega arith) (omega arith) (omega arith)

-- `splice_truncates_conflicts`, a test of the source.
splice_truncates_conflicts :
    (Log.splice 1 (entry 1 ∷ entry 4 ∷ []) (record {
      entries = entry 1 ∷ entry 1 ∷ entry 2 ∷ [];
      snapshot_index = 0;
      snapshot_term = 0;
    })).0
    ≡ record { entries = entry 1 ∷ entry 1 ∷ entry 4 ∷ []; snapshot_index = 0; snapshot_term = 0 }
unfolding Log.splice Log.splice_loop Log.agrees Log.truncate_from
splice_truncates_conflicts = refl

splice-splice_example :
    (Log.splice 1 (entry 2 ∷ entry 2 ∷ []) (Log.splice 1 (entry 2 ∷ entry 2 ∷ []) two_entries).0).0
    ≡ (Log.splice 1 (entry 2 ∷ entry 2 ∷ []) two_entries).0
splice-splice_example =
    splice-splice two_entries 1 (entry 2 ∷ entry 2 ∷ []) (omega arith) (omega arith) (omega arith)
