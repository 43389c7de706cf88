-- ===== src/Raft/Terms.antt =====
-- How the term moves, over every input of src/raft/node.rs.
use ferrium.Common.{
  ◌+◌, ◌≤◌, ◌≡◌, arith, leb, ltb, if◌then◌else◌, u64, max, Bool-cases, inl, inr, none,
}
use ferrium.Raft.Message
use ferrium.Raft.Message.{
  NodeId, Message, request_vote, request_vote_reply, append_entries, append_entries_reply,
  install_snapshot, install_snapshot_reply,
}
use ferrium.Raft.State.{leader}
use ferrium.Raft.Node.{Rand, RaftNode}
use ferrium.Raft.Node.Roles.{become_follower, become_candidate}
use ferrium.Raft.Node.Handlers.{
  reject_append, accept_append, handle_request_vote, handle_append_entries, handle_install_snapshot,
}
use ferrium.Raft.Node.Drive.{tick, dispatch, step}
use ferrium.Raft.Frames.{broadcast_append-Kept, become_leader-Kept, request_loop_lem}
use ferrium.Raft.Contracts.{
  handle_append_entries_reply-Kept, handle_install_snapshot_reply-Kept,
  handle_request_vote_reply_lem,
}

module _ (R : Rand) where
  open R use {StdRng}

  dispatch-term :
      (from : NodeId) (msg : Message) (n : RaftNode StdRng)
      → Message.term msg ≤ n.current_term
      → (dispatch R from msg n).current_term ≡ n.current_term
  unfolding dispatch Message.term handle_request_vote handle_append_entries handle_install_snapshot
      reject_append accept_append
  dispatch-term from (request_vote m) n h = ground arith
  dispatch-term from (request_vote_reply m) n h = ground (arith, handle_request_vote_reply_lem m n)
  dispatch-term from (append_entries m) n h = ground arith
  dispatch-term from (append_entries_reply m) n h =
      ground (arith, handle_append_entries_reply-Kept from m n)
  dispatch-term from (install_snapshot m) n h = ground arith
  dispatch-term from (install_snapshot_reply m) n h =
      ground (arith, handle_install_snapshot_reply-Kept from m n)

  -- After any message the term is the greater of the node's and the message's: it never falls, and
  -- a node that lags catches up at once.
  pub current_term-step :
      (from : NodeId) (msg : Message) (n : RaftNode StdRng)
      → (step R from msg n).current_term ≡ max n.current_term (Message.term msg)
  unfolding step become_follower
  current_term-step from msg n = elim (Bool-cases (ltb n.current_term (Message.term msg))) [
    | inl newer ↦ rw newer (
        ground (arith, newer, dispatch-term from msg (become_follower R (Message.term msg) none n)))
    | inr older ↦ rw older (ground (arith, older, dispatch-term from msg n))
  ]

  become_candidate-term :
      (n : RaftNode StdRng) → (become_candidate R n).current_term ≡ u64 (n.current_term + 1)
  unfolding become_candidate
  become_candidate-term n = grind (arith, become_leader-Kept, request_loop_lem)

  -- A tick leaves a leader's term alone; it raises another node's term by one, modulo 2^64, if its
  -- election timeout runs out, and keeps it otherwise.
  current_term-tick :
      (n : RaftNode StdRng)
      → (tick R n).current_term ≡ elim n.role [
        | leader ↦ n.current_term
        | _ ↦
            if leb n.election_timeout (u64 (n.election_elapsed + 1))
            then u64 (n.current_term + 1)
            else n.current_term
      ]
  unfolding tick
  current_term-tick n = grind (arith, broadcast_append-Kept, become_candidate-term)
