-- ===== src/Raft/Order/Step.antt =====
-- src/raft/node.rs, tick and step: committed entries stay, and the indices stay in order.
use ferrium.Common.{
  ℕ, ◌+◌, ◌-◌, ◌≤◌, ◌<◌, ◌≡◌, refl, arith, leb, ltb, length, take, drop, u64, u64_mod, Bool-cases,
  if_intro, inl, inr, true, none, some, ltb→lt, lt→ltb,
}
use ferrium.Raft.Log
use ferrium.Raft.Log.Index.{last_index_lem}
use ferrium.Raft.Log.Merge.{Covers, Fits-splice}
use ferrium.Raft.Log.Protect.{snapshot_index-splice, matches-le, le-splice, get-splice_Covers}
use ferrium.Raft.Message
use ferrium.Raft.Message.{
  NodeId, AppendEntries, AppendEntriesReply, RequestVoteReply, Message, request_vote,
  request_vote_reply, append_entries, append_entries_reply, install_snapshot,
  install_snapshot_reply,
}
use ferrium.Raft.State
use ferrium.Raft.State.{Role, follower, candidate, leader}
use ferrium.Raft.Node.{Rand, RaftNode, majority}
use ferrium.Raft.Node.Replicate.{broadcast_append}
use ferrium.Raft.Node.Roles.{become_follower, become_leader, become_candidate, stand}
use ferrium.Raft.Node.Handlers.{
  reject_append, accept_append, handle_request_vote, handle_append_entries, handle_install_snapshot,
  handle_install_snapshot_reply,
}
use ferrium.Raft.Node.Drive.{tick, dispatch, step}
use ferrium.Raft.Frames.{request_loop_lem}
use ferrium.Raft.Inputs.{Role-cases, beat, waited, tick_leader, tick_other}
use ferrium.Raft.Ready.{InOrder}
use ferrium.Raft.Order.{
  Forward, broadcast_append-Forward, Forward-same, Forward-after, become_leader-Forward,
  handle_request_vote_reply-Forward, handle_append_entries_reply-Forward,
}

-- What a leader's message must agree with: the receiver's entries up to its commit index, in their
-- terms. Raft's leaders do, by the leader completeness property.
pub record SafeAppend {G : Type 0} (m : AppendEntries) (n : RaftNode G) : Type 0 where
  pub above : n.log.snapshot_index ≤ m.prev_log_index
  pub room : n.log.snapshot_index + length n.log.entries + length m.entries + 1 < u64_mod
  pub agrees :
      Covers
        (drop (m.prev_log_index - n.log.snapshot_index) n.log.entries)
        (take (n.commit_index - m.prev_log_index) m.entries)

module _ (R : Rand) where
  open R use {StdRng}

  accept_append-Forward :
      (m : AppendEntries) (n : RaftNode StdRng)
      → InOrder n
      → SafeAppend m n
      → Log.matches n.log m.prev_log_index m.prev_log_term ≡ true
      → Forward n (accept_append R m n)
  unfolding accept_append Log.splice
  accept_append-Forward m n v s h =
      let hi = matches-le n.log m.prev_log_index m.prev_log_term s.above v.fits h in
      let fits = Fits-splice n.log m.prev_log_index m.entries s.above hi s.room in
      let keep =
        le-splice n.log n.commit_index m.prev_log_index m.entries s.above hi s.room v.stored
          s.agrees in
      let same = snapshot_index-splice n.log m.prev_log_index m.entries s.above hi s.room in
      let last = last_index_lem (Log.splice m.prev_log_index m.entries n.log).0 fits in
      record {
        order = ground (arith, keep, same, fits, last);
        commit = ground (arith, keep, same, last);
        kept =
            get-splice_Covers n.log n.commit_index m.prev_log_index m.entries s.above hi s.room
              v.stored s.agrees;
      }

  become_candidate-Forward : (n : RaftNode StdRng) → InOrder n → Forward n (become_candidate R n)
  unfolding become_candidate
  become_candidate-Forward n v =
      let s : RaftNode StdRng = stand R n in
      if_intro (Forward n) (leb (majority s) (State.count s.votes)) (become_leader s) _
        (λ _. Forward-after s v refl refl refl (become_leader-Forward s))
        (λ _. rw (request_loop_lem s.peers _ s) (Forward-same v refl refl refl))

  beat-Forward : (n : RaftNode StdRng) → InOrder n → Forward n (beat R n)
  beat-Forward n v =
      let b : RaftNode StdRng = record n { heartbeat_elapsed = 0 } in
      if_intro (Forward n) (leb n.config.heartbeat_ticks (u64 (n.heartbeat_elapsed + 1)))
        (broadcast_append b) (record n { heartbeat_elapsed = u64 (n.heartbeat_elapsed + 1) })
        (λ _. Forward-after b v refl refl refl (broadcast_append-Forward b))
        (λ _. Forward-same v refl refl refl)

  -- A tick of a node in order keeps the order, does not lower the commit index and changes no
  -- committed entry.
  tick-Forward : (n : RaftNode StdRng) → InOrder n → Forward n (tick R n)
  tick-Forward n v = elim (Role-cases n.role) [
    | inl led ↦ rw (tick_leader R n led) (beat-Forward n v)
    | inr other ↦ rw (tick_other R n other) (
        if_intro (Forward n) (leb n.election_timeout (u64 (n.election_elapsed + 1)))
          (become_candidate R (waited R n)) (waited R n)
          (λ _. Forward-after (waited R n) v refl refl refl (become_candidate-Forward (waited R n)))
          (λ _. Forward-same v refl refl refl))
  ]

  -- What a message must satisfy to be harmless to committed entries: an AppendEntries agrees with
  -- them, and an InstallSnapshot, which replaces the log, is stale.
  abbrev pub Safe : Message → RaftNode StdRng → Type 0
  Safe (append_entries m) n = SafeAppend m n
  Safe (install_snapshot m) n = m.term < n.current_term
  Safe _ n = Unit

  handle_append_entries-Forward :
      (m : AppendEntries) (n : RaftNode StdRng)
      → InOrder n
      → SafeAppend m n
      → Forward n (handle_append_entries R m n)
  unfolding handle_append_entries reject_append
  handle_append_entries-Forward m n v s =
      let f : RaftNode StdRng = become_follower R m.term (some m.leader_id) n in
      if_intro (Forward n) (ltb m.term n.current_term) (reject_append m.leader_id 0 n) _
        (λ _. Forward-same v refl refl refl)
        (λ _. elim (Bool-cases (Log.matches f.log m.prev_log_index m.prev_log_term)) [
          | inl ok ↦ rw ok (
              Forward-after f v refl refl refl (λ w.
                accept_append-Forward m f w
                  (record { above = s.above; room = s.room; agrees = s.agrees }) ok))
          | inr conflict ↦ rw conflict (Forward-same v refl refl refl)
        ])

  dispatch-Forward :
      (from : NodeId) (msg : Message) (n : RaftNode StdRng)
      → InOrder n
      → Safe msg n
      → Forward n (dispatch R from msg n)
  unfolding dispatch handle_request_vote handle_install_snapshot handle_install_snapshot_reply
  dispatch-Forward from (request_vote m) n v s =
      Forward-same v (ground arith) (ground arith) (ground arith)
  dispatch-Forward from (request_vote_reply m) n v s = handle_request_vote_reply-Forward m n v
  dispatch-Forward from (append_entries m) n v s = handle_append_entries-Forward m n v s
  dispatch-Forward from (append_entries_reply m) n v s =
      handle_append_entries_reply-Forward from m n v
  dispatch-Forward from (install_snapshot m) n v s =
      rw (lt→ltb m.term n.current_term s) (Forward-same v refl refl refl)
  dispatch-Forward from (install_snapshot_reply m) n v s =
      Forward-same v (ground arith) (ground arith) (ground arith)

  Safe-become_follower :
      (msg : Message) (t : ℕ) (n : RaftNode StdRng)
      → n.current_term < t
      → Safe msg n
      → Safe msg (become_follower R t none n)
  unfolding become_follower
  Safe-become_follower (append_entries m) t n h s = record {
    above = s.above;
    room = s.room;
    agrees = s.agrees;
  }
  Safe-become_follower (install_snapshot m) t n h s = omega arith
  Safe-become_follower _ t n h s = tt

  -- Handling any message keeps the order compacted <= applied <= committed <= stored, never lowers
  -- the commit index, and changes no entry at or below the old commit index. The conditions: the
  -- node is in order, an AppendEntries starts at or above the snapshot point, leaves room for
  -- indices below 2^64 and agrees in terms with the receiver's entries up to its commit index, and
  -- an InstallSnapshot is of an older term.
  pub step-Forward :
      (from : NodeId) (msg : Message) (n : RaftNode StdRng)
      → InOrder n
      → Safe msg n
      → Forward n (step R from msg n)
  unfolding step become_follower
  step-Forward from msg n v s = elim (Bool-cases (ltb n.current_term (Message.term msg))) [
    | inl newer ↦
        let f : RaftNode StdRng = become_follower R (Message.term msg) none n in
        rw newer (
          Forward-after f v refl refl refl (λ w.
            dispatch-Forward from msg f w
              (Safe-become_follower msg (Message.term msg) n (ltb→lt _ _ newer) s)))
    | inr older ↦ rw older (dispatch-Forward from msg n v s)
  ]
