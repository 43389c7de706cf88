-- ===== src/Examples/Nodes.antt =====
-- Concrete nodes and messages of src/raft.
use ferrium.Common.{ℕ, ◌≤◌, arith, [], ◌∷◌, bytes, none}
use ferrium.Raft.Log.{LogEntry, RaftLog}
use ferrium.Raft.Message.{AppendEntries, RequestVote}
use ferrium.Raft.State.{follower, leader, no_progress, no_votes}
use ferrium.Raft.Node.{Rand, RaftNode, default_config}
use ferrium.Raft.Ready.{InOrder}

-- A generator that always draws the lower bound.
abbrev pub draw_low : ℕ → ℕ → ℕ → ℕ × ℕ
draw_low lo hi g = (lo, g)

pub draw_low_bounds :
    (lo hi g : ℕ) → lo ≤ hi → (lo ≤ (draw_low lo hi g).0) × ((draw_low lo hi g).0 ≤ hi)
draw_low_bounds lo hi g h = omega arith

abbrev pub fixed : Rand
fixed = record {
  StdRng = ℕ;
  seed_from_u64 = λ s. s;
  from_entropy = 0;
  gen_range = draw_low;
  gen_range_bounds = draw_low_bounds;
}

abbrev pub entry : ℕ → LogEntry
entry t = record { term = t; command = bytes "x" }

abbrev pub two_entries : RaftLog
two_entries = record { entries = entry 1 ∷ entry 1 ∷ []; snapshot_index = 0; snapshot_term = 0 }

-- A follower in term 2, with one of its two entries committed and none applied.
abbrev pub node1 : RaftNode ℕ
node1 = record {
  id = bytes "n1";
  peers = bytes "n2" ∷ bytes "n3" ∷ [];
  config = default_config;
  rng = 0;
  role = follower;
  leader_id = none;
  current_term = 2;
  voted_for = none;
  log = two_entries;
  commit_index = 1;
  last_applied = 0;
  progress = no_progress;
  votes = no_votes;
  election_elapsed = 0;
  heartbeat_elapsed = 0;
  election_timeout = 5;
  outgoing = [];
  committed = [];
}

pub node1-InOrder : InOrder node1
node1-InOrder = omega arith

-- The leader of term 2, with an entry of its own that `n2` holds too.
abbrev pub node2 : RaftNode ℕ
node2 = record node1 {
  id = bytes "n2";
  peers = bytes "n1" ∷ bytes "n3" ∷ [];
  role = leader;
  log = record {
    entries = entry 1 ∷ entry 1 ∷ entry 2 ∷ [];
    snapshot_index = 0;
    snapshot_term = 0;
  };
  progress = record { next_index = (bytes "n1", 3) ∷ []; match_index = (bytes "n3", 3) ∷ [] };
}

-- What `n2` sends: its third entry, after the second.
abbrev pub third : AppendEntries
third = record {
  term = 2;
  leader_id = bytes "n2";
  prev_log_index = 2;
  prev_log_term = 1;
  entries = entry 2 ∷ [];
  leader_commit = 1;
}

abbrev pub heartbeat : AppendEntries
heartbeat = record {
  term = 2;
  leader_id = bytes "n2";
  prev_log_index = 1;
  prev_log_term = 1;
  entries = [];
  leader_commit = 9;
}

abbrev pub request : RequestVote
request = record { term = 2; candidate_id = bytes "n3"; last_log_index = 2; last_log_term = 1 }
