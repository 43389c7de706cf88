-- ===== src/Raft/Node/Drive.antt =====
-- src/raft/node.rs, the inputs of the state machine: ticks, proposals, messages, and the drain.
use ferrium.Common.{ℕ, ◌+◌, Option, none, [], ◌∷◌, Bytes, leb, ltb, if◌then◌else◌, u64}
use ferrium.Raft.Log
use ferrium.Raft.Message
use ferrium.Raft.Message.{
  NodeId, Message, request_vote, request_vote_reply, append_entries, append_entries_reply,
  install_snapshot, install_snapshot_reply,
}
use ferrium.Raft.State.{leader}
use ferrium.Raft.Node.{Rand, RaftNode, Ready}
use ferrium.Raft.Node.Replicate.{broadcast_append, advance_commit, apply_committed}
use ferrium.Raft.Node.Roles.{become_follower, become_candidate}
use ferrium.Raft.Node.Handlers.{
  handle_request_vote, handle_request_vote_reply, handle_append_entries,
  handle_append_entries_reply, handle_install_snapshot, handle_install_snapshot_reply,
}

-- `Result<u64, NotLeader>`
pub data Proposed : Type 0 where
  ok : (index : ℕ) → Proposed
  not_leader : (leader : Option NodeId) → Proposed

module _ {G : Type 0} where
  unfoldable pub take_ready : RaftNode G → RaftNode G × Ready
  take_ready n =
      let a = apply_committed n in
      (
        record a { outgoing = []; committed = [] },
        record { messages = a.outgoing; committed = a.committed },
      )

  unfoldable pub propose : Bytes → RaftNode G → RaftNode G × Proposed
  propose command n = elim n.role [
    | leader ↦
        let (log', index) =
          Log.append (record { term = n.current_term; command = command } ∷ []) n.log in
        (advance_commit (broadcast_append (record n { log = log' })), ok index)
    | _ ↦ (n, not_leader n.leader_id)
  ]

module _ (R : Rand) where
  open R use {StdRng}

  unfoldable pub tick : RaftNode StdRng → RaftNode StdRng
  tick n = elim n.role [
    | leader ↦
        let elapsed = u64 (n.heartbeat_elapsed + 1) in
        if leb n.config.heartbeat_ticks elapsed
        then broadcast_append (record n { heartbeat_elapsed = 0 })
        else record n { heartbeat_elapsed = elapsed }
    | _ ↦
        let elapsed = u64 (n.election_elapsed + 1) in
        let n' : RaftNode StdRng = record n { election_elapsed = elapsed } in
        if leb n.election_timeout elapsed then become_candidate R n' else n'
  ]

  -- The `match message` of `step`.
  unfoldable pub dispatch : NodeId → Message → RaftNode StdRng → RaftNode StdRng
  dispatch from (request_vote m) n = handle_request_vote R m n
  dispatch from (request_vote_reply m) n = handle_request_vote_reply m n
  dispatch from (append_entries m) n = handle_append_entries R m n
  dispatch from (append_entries_reply m) n = handle_append_entries_reply from m n
  dispatch from (install_snapshot m) n = handle_install_snapshot R m n
  dispatch from (install_snapshot_reply m) n = handle_install_snapshot_reply from m n

  unfoldable pub step : NodeId → Message → RaftNode StdRng → RaftNode StdRng
  step from message n =
      let n' : RaftNode StdRng =
        (if ltb n.current_term (Message.term message)
          then become_follower R (Message.term message) none n
          else n) in
      dispatch from message n'
