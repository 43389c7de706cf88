-- ===== src/Raft/Node.antt =====
-- src/raft/node.rs: the state of a Raft peer, its configuration and its outputs. The methods are
-- in the child modules; a method that mutates the node returns the new node.
pub mod Replicate
pub mod Roles
pub mod Handlers
pub mod Drive
use ferrium.Common.{
  ℕ, ◌+◌, ◌/◌, ◌≤◌, Bool, true, false, Option, none, some, List, [], ◌∷◌, ◌++◌, Bytes, length,
}
use ferrium.Raft.Log
use ferrium.Raft.Log.{RaftLog}
use ferrium.Raft.Message.{NodeId, Message}
use ferrium.Raft.State.{
  Role, follower, candidate, leader, LeaderProgress, no_progress, VoteTally, no_votes,
}
use ferrium.Storage.Engine.{KeyValue}

pub record RaftConfig : Type 0 where
  pub heartbeat_ticks : ℕ
  pub election_timeout_min : ℕ
  pub election_timeout_max : ℕ
  pub snapshot_threshold : ℕ
  pub seed : Option ℕ

-- `RaftConfig::default`
abbrev pub default_config : RaftConfig
default_config = record {
  heartbeat_ticks = 1;
  election_timeout_min = 5;
  election_timeout_max = 10;
  snapshot_threshold = 1024;
  seed = none;
}

pub record Envelope : Type 0 where
  pub to : NodeId
  pub message : Message

pub data Committed : Type 0 where
  command : (index : ℕ) → (command : Bytes) → Committed
  snapshot : List KeyValue → Committed

pub record Ready : Type 0 where
  pub messages : List Envelope
  pub committed : List Committed

-- The `rand` crate, which draws the election timeouts: a generator and its documented range.
pub record Rand : Type 1 where
  pub StdRng : Type 0
  pub seed_from_u64 : ℕ → StdRng
  pub from_entropy : StdRng
  pub gen_range : ℕ → ℕ → StdRng → ℕ × StdRng
  pub gen_range_bounds :
      (lo hi : ℕ) (g : StdRng)
      → lo ≤ hi
      → (lo ≤ (gen_range lo hi g).0) × ((gen_range lo hi g).0 ≤ hi)

-- `G` is the type of the random generator.
pub record RaftNode (G : Type 0) : Type 0 where
  pub id : NodeId
  pub peers : List NodeId
  pub config : RaftConfig
  pub rng : G
  pub role : Role
  pub leader_id : Option NodeId
  pub current_term : ℕ
  pub voted_for : Option NodeId
  pub log : RaftLog
  pub commit_index : ℕ
  pub last_applied : ℕ
  pub progress : LeaderProgress
  pub votes : VoteTally
  pub election_elapsed : ℕ
  pub heartbeat_elapsed : ℕ
  pub election_timeout : ℕ
  pub outgoing : List Envelope
  pub committed : List Committed

module _ (R : Rand) where
  open R use {StdRng, seed_from_u64, from_entropy, gen_range}

  -- The generator that `new` starts from.
  unfoldable pub initial_rng : RaftConfig → StdRng
  initial_rng config = elim config.seed [ some seed ↦ seed_from_u64 seed | none ↦ from_entropy ]

  unfoldable pub new : NodeId → List NodeId → RaftConfig → RaftNode StdRng
  unfolding initial_rng
  new id peers config =
      let (timeout, rng') =
        gen_range config.election_timeout_min config.election_timeout_max (initial_rng config) in
      record {
        id = id;
        peers = peers;
        config = config;
        rng = rng';
        role = follower;
        leader_id = none;
        current_term = 0;
        voted_for = none;
        log = Log.new;
        commit_index = 0;
        last_applied = 0;
        progress = no_progress;
        votes = no_votes;
        election_elapsed = 0;
        heartbeat_elapsed = 0;
        election_timeout = timeout;
        outgoing = [];
        committed = [];
      }

module _ {G : Type 0} where
  unfoldable pub is_leader : RaftNode G → Bool
  is_leader n = elim n.role [ leader ↦ true | _ ↦ false ]

  unfoldable pub last_log_index : RaftNode G → ℕ
  last_log_index n = Log.last_index n.log

  unfoldable pub cluster_size : RaftNode G → ℕ
  cluster_size n = length n.peers + 1

  unfoldable pub majority : RaftNode G → ℕ
  unfolding cluster_size
  majority n = cluster_size n / 2 + 1

  unfoldable pub send : NodeId → Message → RaftNode G → RaftNode G
  send to message n = record n {
    outgoing = n.outgoing ++ record { to = to; message = message } ∷ [];
  }
