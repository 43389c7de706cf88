-- ===== src/Raft/LeaderLog.antt =====
-- A leader of src/raft/node.rs only appends to its log.
use ferrium.Common.{◌≡◌, refl, ◌∙◌, arith, List, [], ◌∷◌, ◌++◌, append-nil, Bytes, inl, inr}
use ferrium.Raft.Log
use ferrium.Raft.Log.{LogEntry, RaftLog}
use ferrium.Raft.Message.{
  NodeId, Message, request_vote, request_vote_reply, append_entries, append_entries_reply,
  install_snapshot, install_snapshot_reply,
}
use ferrium.Raft.State.{leader}
use ferrium.Raft.Node.{Rand, RaftNode}
use ferrium.Raft.Node.Replicate.{broadcast_append}
use ferrium.Raft.Node.Roles.{become_follower, become_candidate}
use ferrium.Raft.Node.Handlers.{
  reject_append, accept_append, handle_request_vote, handle_append_entries, handle_install_snapshot,
}
use ferrium.Raft.Node.Drive.{ok, tick, dispatch, step, propose}
use ferrium.Raft.Run.{Event, ticked, received, proposed, drained, react}
use ferrium.Raft.Frames.{
  Kept, become_leader-Kept, broadcast_append-Kept, advance_commit-Kept, request_loop_lem,
}
use ferrium.Raft.Contracts.{
  handle_append_entries_reply-Kept, handle_install_snapshot_reply-Kept,
  handle_request_vote_reply_lem,
}
use ferrium.Raft.Inputs.{Role-cases, appended, propose_leader, propose_other}

module _ {G : Type 0} where
  -- What an event adds to the log of a leader.
  abbrev pub additions : Event → RaftNode G → List LogEntry
  additions (proposed c) n = record { term = n.current_term; command = c } ∷ []
  additions _ n = []

  -- A log with entries added behind it, and nothing new to hand over.
  pub record Appends (more : List LogEntry) (a b : RaftNode G) : Type 0 where
    pub log : b.log ≡ record a.log { entries = a.log.entries ++ more }
    pub committed : b.committed ≡ a.committed
    pub last_applied : b.last_applied ≡ a.last_applied

  same_log : (n : RaftNode G) → n.log ≡ record n.log { entries = n.log.entries ++ [] }
  same_log n = rw (append-nil n.log.entries) refl

  unchanged : (n : RaftNode G) → Appends [] n n
  unchanged n = record { log = same_log n; committed = refl; last_applied = refl }

  Kept-Appends : (a b : RaftNode G) → Kept a b → Appends [] a b
  Kept-Appends a b k = record {
    log = k.log ∙ same_log a;
    committed = k.committed;
    last_applied = k.last_applied;
  }

  pub index-propose :
      (c : Bytes) (n : RaftNode G)
      → n.role ≡ leader
      → (propose c n).1 ≡ ok (Log.last_index (propose c n).0.log)
  unfolding propose Log.append
  index-propose c n e = ground (
    arith,
    advance_commit-Kept (broadcast_append (appended c n)),
    broadcast_append-Kept (appended c n),
  )

-- All events but the drain, which compacts.
abbrev pub IsInput : Event → Type 0
IsInput drained = ⊥
IsInput _ = Unit

module _ (R : Rand) where
  open R use {StdRng}

  dispatch-Appends :
      (from : NodeId) (msg : Message) (n : RaftNode StdRng)
      → (dispatch R from msg n).role ≡ leader
      → Appends [] n (dispatch R from msg n)
  unfolding dispatch handle_request_vote handle_append_entries handle_install_snapshot reject_append
      accept_append
  dispatch-Appends from (request_vote m) n l = ground (arith, unchanged n)
  dispatch-Appends from (request_vote_reply m) n l =
      let k = handle_request_vote_reply_lem m n in
      record { log = k.log ∙ same_log n; committed = k.committed; last_applied = k.last_applied }
  dispatch-Appends from (append_entries m) n l = ground (arith, unchanged n)
  dispatch-Appends from (append_entries_reply m) n l =
      Kept-Appends _ _ (handle_append_entries_reply-Kept from m n)
  dispatch-Appends from (install_snapshot m) n l = ground (arith, unchanged n)
  dispatch-Appends from (install_snapshot_reply m) n l =
      Kept-Appends _ _ (handle_install_snapshot_reply-Kept from m n)

  step-Appends :
      (from : NodeId) (msg : Message) (n : RaftNode StdRng)
      → (step R from msg n).role ≡ leader
      → Appends [] n (step R from msg n)
  unfolding step become_follower
  step-Appends from msg n l =
      let a = dispatch-Appends from msg _ l in
      record {
        log = a.log ∙ ground arith;
        committed = a.committed ∙ ground arith;
        last_applied = a.last_applied ∙ ground arith;
      }

  pub tick-log : (n : RaftNode StdRng) → (tick R n).log ≡ n.log
  unfolding tick become_candidate
  tick-log n = grind (arith, become_leader-Kept, broadcast_append-Kept, request_loop_lem)

  committed-tick : (n : RaftNode StdRng) → (tick R n).committed ≡ n.committed
  unfolding tick become_candidate
  committed-tick n = grind (arith, become_leader-Kept, broadcast_append-Kept, request_loop_lem)

  last_applied-tick : (n : RaftNode StdRng) → (tick R n).last_applied ≡ n.last_applied
  unfolding tick become_candidate
  last_applied-tick n = grind (arith, become_leader-Kept, broadcast_append-Kept, request_loop_lem)

  propose-Appends :
      (c : Bytes) (n : RaftNode StdRng)
      → (propose c n).0.role ≡ leader
      → Appends (additions (proposed c) n) n (propose c n).0
  unfolding Log.append
  propose-Appends c n l = elim (Role-cases n.role) [
    | inl led ↦
        let a = advance_commit-Kept (broadcast_append (appended c n)) in
        let b = broadcast_append-Kept (appended c n) in
        rw (propose_leader c n led) (record {
          log = a.log ∙ b.log;
          committed = a.committed ∙ b.committed;
          last_applied = a.last_applied ∙ b.last_applied;
        })
    | inr other ↦ ground (arith, propose_other c n other)
  ]

  pub react-Appends :
      (e : Event) (n : RaftNode StdRng)
      → IsInput e
      → (react R e n).role ≡ leader
      → Appends (additions e n) n (react R e n)
  unfolding react
  react-Appends ticked n i l = record {
    log = tick-log n ∙ same_log n;
    committed = committed-tick n;
    last_applied = last_applied-tick n;
  }
  react-Appends (received from msg) n i l = step-Appends from msg n l
  react-Appends (proposed c) n i l = propose-Appends c n l
  react-Appends drained n i l = absurd i

  -- Leader append-only: if a node is a leader after a tick, a message or a proposal, its log is
  -- the old one, with the proposed entry in its current term behind it if the input was a
  -- proposal.
  pub react-log :
      (e : Event) (n : RaftNode StdRng)
      → IsInput e
      → (react R e n).role ≡ leader
      → (react R e n).log ≡ record n.log { entries = n.log.entries ++ additions e n }
  react-log e n i l = (react-Appends e n i l).log
