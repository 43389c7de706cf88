-- ===== src/Raft/Node/Roles.antt =====
-- src/raft/node.rs, the role transitions.
use ferrium.Common.{ℕ, ◌+◌, Option, none, some, List, [], ◌∷◌, leb, if◌then◌else◌, u64}
use ferrium.Raft.Log
use ferrium.Raft.Message.{NodeId, RequestVote, request_vote}
use ferrium.Raft.State
use ferrium.Raft.State.{follower, candidate, leader}
use ferrium.Raft.Node.{Rand, RaftNode, send, majority}
use ferrium.Raft.Node.Replicate.{broadcast_append, advance_commit}

module _ {G : Type 0} where
  unfoldable pub become_leader : RaftNode G → RaftNode G
  become_leader n = advance_commit (
      broadcast_append (record n {
        role = leader;
        leader_id = some n.id;
        progress = State.reset n.peers (Log.last_index n.log) n.progress;
        heartbeat_elapsed = 0;
      }))

  -- The loop that sends the request to every peer.
  unfoldable pub request_loop : List NodeId → RequestVote → RaftNode G → RaftNode G
  unfolding send
  request_loop [] request n = n
  request_loop (peer ∷ peers) request n =
      request_loop peers request (send peer (request_vote request) n)

module _ (R : Rand) where
  open R use {StdRng, gen_range}

  unfoldable pub reset_election_timer : RaftNode StdRng → RaftNode StdRng
  reset_election_timer n =
      let (timeout, rng') =
        gen_range n.config.election_timeout_min n.config.election_timeout_max n.rng in
      record n { election_elapsed = 0; election_timeout = timeout; rng = rng' }

  unfoldable pub become_follower : ℕ → Option NodeId → RaftNode StdRng → RaftNode StdRng
  unfolding reset_election_timer
  become_follower term leader_id n =
      reset_election_timer
        (record n { current_term = term; role = follower; voted_for = none; leader_id = leader_id })

  -- The state in which a candidacy starts, before any request goes out.
  unfoldable pub stand : RaftNode StdRng → RaftNode StdRng
  unfolding reset_election_timer
  stand n = reset_election_timer (record n {
    role = candidate;
    current_term = u64 (n.current_term + 1);
    voted_for = some n.id;
    leader_id = none;
    votes = (State.record_vote n.id (State.clear n.votes)).0;
  })

  unfoldable pub become_candidate : RaftNode StdRng → RaftNode StdRng
  unfolding stand
  become_candidate n =
      let s = stand n in
      if leb (majority s) (State.count s.votes)
      then become_leader s
      else request_loop s.peers
          (record {
            term = s.current_term;
            candidate_id = s.id;
            last_log_index = Log.last_index s.log;
            last_log_term = Log.last_term s.log;
          })
          s
