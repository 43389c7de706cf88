-- ===== src/Raft/Timers.antt =====
-- The election timeout of a node of src/raft/node.rs, which is drawn anew again and again.
use ferrium.Common.{
  ℕ, zero, suc, ◌-◌, ◌≤◌, ◌≡◌, refl, arith, ltb, Bool-cases, inl, inr, List, ◌∙◌, ◌+◌, u64, some,
  none,
}
use ferrium.Raft.Log
use ferrium.Raft.Message
use ferrium.Raft.Message.{
  NodeId, RequestVoteReply, Message, request_vote, request_vote_reply, append_entries,
  append_entries_reply, install_snapshot, install_snapshot_reply,
}
use ferrium.Raft.State
use ferrium.Raft.State.{candidate, follower}
use ferrium.Raft.Node
use ferrium.Raft.Node.{Rand, RaftNode, RaftConfig}
use ferrium.Raft.Node.Replicate.{
  apply_committed, apply_loop, apply_one, maybe_compact, broadcast_append,
}
use ferrium.Raft.Node.Roles.{become_follower, become_candidate, stand, reset_election_timer}
use ferrium.Raft.Node.Handlers.{
  reject_append, accept_append, handle_request_vote, handle_append_entries, handle_install_snapshot,
  handle_request_vote_reply, handle_install_snapshot_reply,
}
use ferrium.Raft.Node.Drive.{tick, dispatch, step, take_ready}
use ferrium.Raft.Run.{Event, ticked, received, proposed, drained, react, run, run_induction}
use ferrium.Raft.Inputs.{
  Role-cases, appended, beat, waited, propose_leader, propose_other, tick_leader, tick_other,
}
use ferrium.Raft.Frames.{
  Kept, become_leader-Kept, broadcast_append-Kept, advance_commit-Kept, request_loop_lem,
}
use ferrium.Raft.Contracts.{handle_append_entries_reply-Kept}

module _ (R : Rand) (config : RaftConfig)
    (range : config.election_timeout_min ≤ config.election_timeout_max) where
  open R use {StdRng}

  -- The node has this configuration, and its timeout is one that it allows.
  pub record IsTimed (n : RaftNode StdRng) : Type 0 where
    pub same : n.config ≡ config
    pub above : config.election_timeout_min ≤ n.election_timeout
    pub below : n.election_timeout ≤ config.election_timeout_max

  IsTimed-Kept : {a b : RaftNode StdRng} → Kept a b → IsTimed a → IsTimed b
  IsTimed-Kept k v = record {
    same = k.config ∙ v.same;
    above = rw k.election_timeout v.above;
    below = rw k.election_timeout v.below;
  }

  reset-IsTimed : (n : RaftNode StdRng) → n.config ≡ config → IsTimed (reset_election_timer R n)
  unfolding reset_election_timer
  reset-IsTimed n e =
      let drawn =
        R.gen_range_bounds config.election_timeout_min config.election_timeout_max n.rng range in
      record { same = e; above = rw e drawn.0; below = rw e drawn.1 }

  stand-IsTimed : (n : RaftNode StdRng) → n.config ≡ config → IsTimed (stand R n)
  unfolding stand
  stand-IsTimed n e =
      reset-IsTimed
        (record n {
          role = candidate;
          current_term = u64 (n.current_term + 1);
          voted_for = some n.id;
          leader_id = none;
          votes = (State.record_vote n.id (State.clear n.votes)).0;
        })
        e

  become_candidate-IsTimed :
      (n : RaftNode StdRng) → n.config ≡ config → IsTimed (become_candidate R n)
  unfolding become_candidate
  become_candidate-IsTimed n e =
      let s : RaftNode StdRng = stand R n in
      let v = stand-IsTimed n e in
      ground (
        arith,
        stand-IsTimed n e,
        become_leader-Kept s,
        request_loop_lem s.peers
            (record {
              term = s.current_term;
              candidate_id = s.id;
              last_log_index = Log.last_index s.log;
              last_log_term = Log.last_term s.log;
            })
            s,
      )

  beat-IsTimed : (n : RaftNode StdRng) → IsTimed n → IsTimed (beat R n)
  beat-IsTimed n v = ground (arith, broadcast_append-Kept (record n { heartbeat_elapsed = 0 }))

  tick-IsTimed : (n : RaftNode StdRng) → IsTimed n → IsTimed (tick R n)
  tick-IsTimed n v = elim (Role-cases n.role) [
    | inl led ↦ rw (tick_leader R n led) (beat-IsTimed n v)
    | inr other ↦
        rw (tick_other R n other) (ground (arith, become_candidate-IsTimed (waited R n) v.same))
  ]

  handle_request_vote_reply-IsTimed :
      (m : RequestVoteReply) (n : RaftNode StdRng)
      → IsTimed n
      → IsTimed (handle_request_vote_reply m n)
  unfolding handle_request_vote_reply
  handle_request_vote_reply-IsTimed m n v =
      ground
        (arith, become_leader-Kept (record n { votes = (State.record_vote m.voter_id n.votes).0 }))

  -- What the generator draws for the timer of a node.
  drawn :
      (n : RaftNode StdRng)
      → IsTimed n
      → (config.election_timeout_min
          ≤ (R.gen_range n.config.election_timeout_min n.config.election_timeout_max n.rng).0)
        × ((R.gen_range n.config.election_timeout_min n.config.election_timeout_max n.rng).0
            ≤ config.election_timeout_max)
  drawn n v = rw v.same (R.gen_range_bounds _ _ n.rng range)

  dispatch-IsTimed :
      (from : NodeId) (msg : Message) (n : RaftNode StdRng)
      → IsTimed n
      → IsTimed (dispatch R from msg n)
  unfolding dispatch handle_request_vote handle_append_entries handle_install_snapshot
      handle_install_snapshot_reply accept_append reject_append reset_election_timer become_follower
  dispatch-IsTimed from (request_vote m) n v = ground (arith, drawn n v)
  dispatch-IsTimed from (request_vote_reply m) n v = handle_request_vote_reply-IsTimed m n v
  dispatch-IsTimed from (append_entries m) n v = ground (arith, drawn n v)
  dispatch-IsTimed from (append_entries_reply m) n v =
      IsTimed-Kept (handle_append_entries_reply-Kept from m n) v
  dispatch-IsTimed from (install_snapshot m) n v = ground (arith, drawn n v)
  dispatch-IsTimed from (install_snapshot_reply m) n v = ground arith

  step-IsTimed :
      (from : NodeId) (msg : Message) (n : RaftNode StdRng)
      → IsTimed n
      → IsTimed (step R from msg n)
  unfolding step become_follower
  step-IsTimed from msg n v = elim (Bool-cases (ltb n.current_term (Message.term msg))) [
    | inl newer ↦
        let f : RaftNode StdRng = record n {
          current_term = Message.term msg;
          role = follower;
          voted_for = none;
          leader_id = none;
        } in
        rw newer (dispatch-IsTimed from msg (reset_election_timer R f) (reset-IsTimed f v.same))
    | inr older ↦ rw older (dispatch-IsTimed from msg n v)
  ]

  apply_loop-IsTimed : (fuel : ℕ) (n : RaftNode StdRng) → IsTimed n → IsTimed (apply_loop fuel n)
  unfolding apply_loop apply_one
  apply_loop-IsTimed zero n v = v
  apply_loop-IsTimed (suc fuel) n v = ground (
    arith,
    apply_loop-IsTimed fuel (apply_one n)
        (record { same = v.same; above = v.above; below = v.below }),
  )

  react-IsTimed : (e : Event) (n : RaftNode StdRng) → IsTimed n → IsTimed (react R e n)
  unfolding react take_ready apply_committed maybe_compact
  react-IsTimed ticked n v = tick-IsTimed n v
  react-IsTimed (received from msg) n v = step-IsTimed from msg n v
  react-IsTimed (proposed c) n v = elim (Role-cases n.role) [
    | inl led ↦ rw (propose_leader c n led) (
        IsTimed-Kept (advance_commit-Kept (broadcast_append (appended c n))) (
          IsTimed-Kept (broadcast_append-Kept (appended c n))
            (record { same = v.same; above = v.above; below = v.below })))
    | inr other ↦ rw (propose_other c n other) v
  ]
  react-IsTimed drained n v =
      ground (arith, apply_loop-IsTimed (n.commit_index - n.last_applied) n v)

  new-IsTimed : (id : NodeId) (peers : List NodeId) → IsTimed (Node.new R id peers config)
  unfolding Node.new
  new-IsTimed id peers =
      let bounds = R.gen_range_bounds _ _ (Node.initial_rng R config) range in
      record { same = refl; above = bounds.0; below = bounds.1 }

  -- However a fresh node is driven by ticks, messages, proposals and drains, its election timeout
  -- stays between the least and the greatest of its configuration, provided these are in order.
  pub run-IsTimed :
      (id : NodeId) (peers : List NodeId) (es : List Event)
      → IsTimed (run R es (Node.new R id peers config))
  run-IsTimed id peers es =
      run_induction R IsTimed react-IsTimed es (Node.new R id peers config) (new-IsTimed id peers)
