-- ===== src/Raft/Votes.antt =====
-- Voting in src/raft/node.rs: when a vote is granted, how long it lasts, and how it is forgotten.
use ferrium.Common.{
  ◌≤◌, ◌≡◌, ◌≢◌, arith, ltb, ◌==◌, if◌then◌else◌, max, Bool, true, false, ◌&&◌, ◌||◌, not, Option,
  none, some, str_eq, [], ◌∷◌, ◌++◌, str_eq_iff,
}
use ferrium.Raft.Log
use ferrium.Raft.Message
use ferrium.Raft.Message.{
  NodeId, RequestVote, AppendEntries, Message, request_vote, request_vote_reply, append_entries,
  append_entries_reply, install_snapshot, install_snapshot_reply,
}
use ferrium.Raft.Node.{Rand, RaftNode}
use ferrium.Raft.Node.Roles.{become_follower}
use ferrium.Raft.Node.Handlers.{
  grants, can_vote, candidate_is_up_to_date, reject_append, accept_append, handle_request_vote,
  handle_append_entries,
}
use ferrium.Raft.Node.Drive.{dispatch, step}
use ferrium.Raft.Contracts.{
  handle_append_entries_reply-Kept, handle_install_snapshot_reply-Kept,
  handle_request_vote_reply_lem,
}

-- The node has not voted for another candidate.
abbrev pub is_free_for : NodeId → Option NodeId → Bool
is_free_for candidate none = true
is_free_for candidate (some v) = str_eq v candidate

module _ {G : Type 0} where
  -- The candidate's log is behind: its last entry has an older term than the node's, or the same
  -- term and a lower index.
  abbrev pub is_behind : RequestVote → RaftNode G → Bool
  is_behind m n =
      ltb m.last_log_term (Log.last_term n.log)
      || (m.last_log_term == Log.last_term n.log && ltb m.last_log_index (Log.last_index n.log))

  -- The rule of the paper (5.2, 5.4.1): a newer term, or the same term with no vote for another,
  -- and a log that is not behind.
  abbrev pub deserves_vote : RequestVote → RaftNode G → Bool
  deserves_vote m n =
      (ltb n.current_term m.term
        || (m.term == n.current_term && is_free_for m.candidate_id n.voted_for))
      && not (is_behind m n)

module _ (R : Rand) where
  open R use {StdRng}

  -- A vote request adds one message, a reply to the candidate in the greater of the two terms. It
  -- grants the vote exactly if the term is newer, or the same with no vote for another candidate,
  -- and the last entry of the candidate's log is of a newer term than that of the node's, or of
  -- the same term with an index that is not lower. The vote is recorded exactly then; otherwise a
  -- newer term clears the old vote and any other leaves it.
  pub step-request_vote :
      (from : NodeId) (m : RequestVote) (n : RaftNode StdRng)
      → ((step R from (request_vote m) n).outgoing
          ≡ n.outgoing
            ++ record {
              to = m.candidate_id;
              message = request_vote_reply (record {
                term = max n.current_term m.term;
                voter_id = n.id;
                vote_granted = deserves_vote m n;
              });
            }
              ∷ [])
        × ((step R from (request_vote m) n).voted_for ≡ (
            if deserves_vote m n
            then some m.candidate_id
            else if ltb n.current_term m.term
            then none
            else n.voted_for))
  unfolding step dispatch Message.term become_follower handle_request_vote can_vote
      candidate_is_up_to_date
  step-request_vote from m n = ground arith

  -- The messages that can make a node forget a vote of its current term.
  abbrev pub IsFromLeader : Message → Type 0
  IsFromLeader (append_entries m) = Unit
  IsFromLeader (install_snapshot m) = Unit
  IsFromLeader _ = ⊥

  -- A message of a term that is not newer, other than AppendEntries and InstallSnapshot, leaves a
  -- vote as it is.
  voted_for-step :
      (from : NodeId) (msg : Message) (n : RaftNode StdRng) (v : NodeId)
      → n.voted_for ≡ some v
      → Message.term msg ≤ n.current_term
      → ¬ IsFromLeader msg
      → (step R from msg n).voted_for ≡ some v
  unfolding step dispatch Message.term handle_request_vote can_vote
  voted_for-step from (request_vote m) n v e h l = ground (arith, str_eq_iff v m.candidate_id)
  voted_for-step from (request_vote_reply m) n v e h l =
      ground (arith, handle_request_vote_reply_lem m n)
  voted_for-step from (append_entries m) n v e h l = absurd (l tt)
  voted_for-step from (append_entries_reply m) n v e h l =
      ground (arith, handle_append_entries_reply-Kept from m n)
  voted_for-step from (install_snapshot m) n v e h l = absurd (l tt)
  voted_for-step from (install_snapshot_reply m) n v e h l =
      ground (arith, handle_install_snapshot_reply-Kept from m n)

  -- A heartbeat of the current term makes the node forget whom it voted for in that term.
  voted_for-append_entries :
      (from : NodeId) (m : AppendEntries) (n : RaftNode StdRng)
      → n.current_term ≤ m.term
      → (step R from (append_entries m) n).voted_for ≡ none
  unfolding step dispatch Message.term become_follower handle_append_entries reject_append
      accept_append
  voted_for-append_entries from m n h = ground arith

  current_term-append_entries :
      (from : NodeId) (m : AppendEntries) (n : RaftNode StdRng)
      → m.term ≡ n.current_term
      → (step R from (append_entries m) n).current_term ≡ n.current_term
  unfolding step dispatch Message.term become_follower handle_append_entries reject_append
      accept_append
  current_term-append_entries from m n h = ground arith

  log-append_entries :
      (from : NodeId) (m : AppendEntries) (n : RaftNode StdRng)
      → m.entries ≡ []
      → (step R from (append_entries m) n).log ≡ n.log
  unfolding step dispatch Message.term become_follower handle_append_entries reject_append
      accept_append Log.splice Log.splice_loop
  log-append_entries from m n h = ground arith

  -- A node that voted for one candidate refuses an up-to-date second candidate of its current
  -- term, but grants the second its vote after a heartbeat of that same term.
  pub second_vote :
      (from : NodeId) (m : AppendEntries) (r : RequestVote) (n : RaftNode StdRng) (v : NodeId)
      → n.voted_for ≡ some v
      → v ≢ r.candidate_id
      → m.term ≡ n.current_term
      → m.entries ≡ []
      → r.term ≡ n.current_term
      → candidate_is_up_to_date n r.last_log_index r.last_log_term ≡ true
      → (grants r n ≡ false) × (grants r (step R from (append_entries m) n) ≡ true)
  unfolding grants candidate_is_up_to_date can_vote
  second_vote from m r n v voted other mt empty rt fresh = (
    ground (arith, str_eq_iff v r.candidate_id),
    ground (
      arith,
      voted_for-append_entries from m n,
      current_term-append_entries from m n,
      log-append_entries from m n,
    ),
  )
