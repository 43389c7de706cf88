-- ===== src/Raft/Message.antt =====
-- src/raft/message.rs: the messages that nodes exchange.
use ferrium.Common.{ℕ, Bool, List, Bytes}
use ferrium.Raft.Log.{LogEntry}
use ferrium.Storage.Engine.{KeyValue}

abbrev pub NodeId : Type 0
NodeId = Bytes

pub record RequestVote : Type 0 where
  pub term : ℕ
  pub candidate_id : NodeId
  pub last_log_index : ℕ
  pub last_log_term : ℕ

pub record RequestVoteReply : Type 0 where
  pub term : ℕ
  pub voter_id : NodeId
  pub vote_granted : Bool

pub record AppendEntries : Type 0 where
  pub term : ℕ
  pub leader_id : NodeId
  pub prev_log_index : ℕ
  pub prev_log_term : ℕ
  pub entries : List LogEntry
  pub leader_commit : ℕ

pub record AppendEntriesReply : Type 0 where
  pub term : ℕ
  pub follower_id : NodeId
  pub success : Bool
  pub match_index : ℕ
  pub conflict_index : ℕ

-- `contents` is the source's field `data`.
pub record InstallSnapshot : Type 0 where
  pub term : ℕ
  pub leader_id : NodeId
  pub last_included_index : ℕ
  pub last_included_term : ℕ
  pub contents : List KeyValue

pub record InstallSnapshotReply : Type 0 where
  pub term : ℕ
  pub follower_id : NodeId

pub data Message : Type 0 where
  request_vote : RequestVote → Message
  request_vote_reply : RequestVoteReply → Message
  append_entries : AppendEntries → Message
  append_entries_reply : AppendEntriesReply → Message
  install_snapshot : InstallSnapshot → Message
  install_snapshot_reply : InstallSnapshotReply → Message

unfoldable pub term : Message → ℕ
term (request_vote m) = m.term
term (request_vote_reply m) = m.term
term (append_entries m) = m.term
term (append_entries_reply m) = m.term
term (install_snapshot m) = m.term
term (install_snapshot_reply m) = m.term
