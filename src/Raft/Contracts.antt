-- ===== src/Raft/Contracts.antt =====
-- Contracts of the handlers of src/raft/node.rs that only a leader or a candidate runs: what they
-- leave alone.
use ferrium.Common.{◌≡◌, arith}
use ferrium.Raft.Message.{NodeId, RequestVoteReply, AppendEntriesReply, InstallSnapshotReply}
use ferrium.Raft.Node.{RaftNode}
use ferrium.Raft.Node.Handlers.{
  handle_request_vote_reply, handle_append_entries_reply, handle_install_snapshot_reply,
}
use ferrium.Raft.Frames.{
  Kept, send_append-Kept, advance_commit-Kept, become_leader-Kept, role-advance_commit,
  role-send_append,
}

module _ {G : Type 0} where
  pub handle_append_entries_reply-Kept :
      (from : NodeId) (m : AppendEntriesReply) (n : RaftNode G)
      → Kept n (handle_append_entries_reply from m n)
  unfolding handle_append_entries_reply
  handle_append_entries_reply-Kept from m n = grind (arith, advance_commit-Kept, send_append-Kept)

  pub role-handle_append_entries_reply :
      (from : NodeId) (m : AppendEntriesReply) (n : RaftNode G)
      → (handle_append_entries_reply from m n).role ≡ n.role
  unfolding handle_append_entries_reply
  role-handle_append_entries_reply from m n = grind (arith, role-advance_commit, role-send_append)

  pub handle_install_snapshot_reply-Kept :
      (from : NodeId) (m : InstallSnapshotReply) (n : RaftNode G)
      → Kept n (handle_install_snapshot_reply from m n)
  unfolding handle_install_snapshot_reply
  handle_install_snapshot_reply-Kept from m n = ground arith

  -- A vote reply either changes nothing, or adds the voter, and makes a leader at a majority.
  pub record VoteReply (m : RequestVoteReply) (n n' : RaftNode G) : Type 0 where
    pub id : n'.id ≡ n.id
    pub peers : n'.peers ≡ n.peers
    pub current_term : n'.current_term ≡ n.current_term
    pub voted_for : n'.voted_for ≡ n.voted_for
    pub log : n'.log ≡ n.log
    pub last_applied : n'.last_applied ≡ n.last_applied
    pub committed : n'.committed ≡ n.committed

  pub handle_request_vote_reply_lem :
      (m : RequestVoteReply) (n : RaftNode G) → VoteReply m n (handle_request_vote_reply m n)
  unfolding handle_request_vote_reply
  handle_request_vote_reply_lem m n = grind (arith, become_leader-Kept)
