-- ===== src/Raft/Node/Handlers.antt =====
-- src/raft/node.rs, the handlers of the inbound messages.
use ferrium.Common.{
  ℕ, ◌+◌, Bool, true, false, not, ◌&&◌, ◌||◌, Option, none, some, [], ◌∷◌, ◌++◌, min, max, str_eq,
  leb, ltb, ◌==◌, if◌then◌else◌, u64,
}
use ferrium.Raft.Log
use ferrium.Raft.Message.{
  NodeId, RequestVote, RequestVoteReply, AppendEntries, AppendEntriesReply, InstallSnapshot,
  InstallSnapshotReply, request_vote_reply, append_entries_reply, install_snapshot_reply,
}
use ferrium.Raft.State
use ferrium.Raft.State.{Role, follower, candidate, leader}
use ferrium.Raft.Node.{Rand, RaftNode, snapshot, send, majority}
use ferrium.Raft.Node.Replicate.{send_append, advance_commit}
use ferrium.Raft.Node.Roles.{become_leader, reset_election_timer, become_follower}

abbrev pub is_role : Role → Role → Bool
is_role follower follower = true
is_role candidate candidate = true
is_role leader leader = true
is_role _ _ = false

-- `voted_for.is_none() || voted_for.as_deref() == Some(candidate)`
unfoldable pub can_vote : Option NodeId → NodeId → Bool
can_vote none c = true
can_vote (some v) c = str_eq v c

module _ {G : Type 0} where
  unfoldable pub candidate_is_up_to_date : RaftNode G → ℕ → ℕ → Bool
  candidate_is_up_to_date n last_index last_term =
      ltb (Log.last_term n.log) last_term
      || (last_term == Log.last_term n.log && leb (Log.last_index n.log) last_index)

  -- The test under which a vote is granted.
  unfoldable pub grants : RequestVote → RaftNode G → Bool
  unfolding can_vote candidate_is_up_to_date
  grants m n =
      leb n.current_term m.term
      && (can_vote n.voted_for m.candidate_id
          && candidate_is_up_to_date n m.last_log_index m.last_log_term)

  unfoldable pub conflict_hint : RaftNode G → ℕ → ℕ
  conflict_hint n prev_log_index =
      let last = Log.last_index n.log in
      if ltb last prev_log_index then u64 (last + 1) else max prev_log_index (Log.first_index n.log)

  unfoldable pub reject_append : NodeId → ℕ → RaftNode G → RaftNode G
  unfolding send
  reject_append leader_id conflict_index n =
      send leader_id
        (append_entries_reply (record {
          term = n.current_term;
          follower_id = n.id;
          success = false;
          match_index = 0;
          conflict_index = conflict_index;
        }))
        n

  unfoldable pub handle_request_vote_reply : RequestVoteReply → RaftNode G → RaftNode G
  handle_request_vote_reply m n =
      if not (is_role n.role candidate) || not (m.term == n.current_term)
      then n
      else if m.vote_granted
      then (let (votes', count) = State.record_vote m.voter_id n.votes in
          let n' = record n { votes = votes' } in
          if leb (majority n) count then become_leader n' else n')
      else n

  unfoldable pub handle_append_entries_reply : NodeId → AppendEntriesReply → RaftNode G → RaftNode G
  handle_append_entries_reply from m n =
      if not (is_role n.role leader) || not (m.term == n.current_term)
      then n
      else if m.success
      then advance_commit (record n {
        progress =
            State.set_next_index from (u64 (m.match_index + 1))
              (State.set_match_index from m.match_index n.progress);
      })
      else send_append from
          (record n { progress = State.set_next_index from (max m.conflict_index 1) n.progress })

  unfoldable pub handle_install_snapshot_reply :
      NodeId → InstallSnapshotReply → RaftNode G → RaftNode G
  handle_install_snapshot_reply from m n =
      if not (is_role n.role leader) || not (m.term == n.current_term)
      then n
      else (let index = n.log.snapshot_index in
          record n {
            progress =
                State.set_next_index from (u64 (index + 1))
                  (State.set_match_index from index n.progress);
          })

module _ (R : Rand) where
  open R use {StdRng}

  unfoldable pub handle_request_vote : RequestVote → RaftNode StdRng → RaftNode StdRng
  unfolding grants reset_election_timer send
  handle_request_vote m n =
      let granted = grants m n in
      let voted : RaftNode StdRng =
        (if granted
          then reset_election_timer R (record n { voted_for = some m.candidate_id })
          else n) in
      send m.candidate_id
        (request_vote_reply
          (record { term = voted.current_term; voter_id = voted.id; vote_granted = granted }))
        voted

  -- What `handle_append_entries` does once the log matches.
  unfoldable pub accept_append : AppendEntries → RaftNode StdRng → RaftNode StdRng
  unfolding send
  accept_append m n =
      let (log', last_new_index) = Log.splice m.prev_log_index m.entries n.log in
      let commit' =
        (if ltb n.commit_index m.leader_commit
          then min m.leader_commit last_new_index
          else n.commit_index) in
      send m.leader_id
        (append_entries_reply (record {
          term = n.current_term;
          follower_id = n.id;
          success = true;
          match_index = last_new_index;
          conflict_index = 0;
        }))
        (record n { log = log'; commit_index = commit' })

  unfoldable pub handle_append_entries : AppendEntries → RaftNode StdRng → RaftNode StdRng
  unfolding become_follower
  handle_append_entries m n =
      if ltb m.term n.current_term
      then reject_append m.leader_id 0 n
      else (let f = become_follower R m.term (some m.leader_id) n in
          if not (Log.matches f.log m.prev_log_index m.prev_log_term)
          then reject_append m.leader_id (conflict_hint f m.prev_log_index) f
          else accept_append m f)

  unfoldable pub handle_install_snapshot : InstallSnapshot → RaftNode StdRng → RaftNode StdRng
  unfolding become_follower send
  handle_install_snapshot m n =
      if ltb m.term n.current_term
      then n
      else (let f = become_follower R m.term (some m.leader_id) n in
          send m.leader_id
            (install_snapshot_reply (record { term = f.current_term; follower_id = f.id }))
            (record f {
              log = Log.install_snapshot m.last_included_index m.last_included_term f.log;
              commit_index = m.last_included_index;
              last_applied = m.last_included_index;
              committed = f.committed ++ snapshot m.contents ∷ [];
            }))
