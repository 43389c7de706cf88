-- ===== src/Raft/Election.antt =====
-- Winning an election in src/raft/node.rs: a leader has counted the votes of a majority.
use ferrium.Common.{
  ℕ, ◌≤◌, ◌≡◌, refl, arith, leb, ltb, false, List, [], ◌∷◌, Bool-cases, inl, inr, length, Bytes,
  if_intro, leb→le, zero, suc, ◌-◌,
}
use ferrium.Raft.Log
use ferrium.Raft.Message
use ferrium.Raft.Message.{
  NodeId, RequestVoteReply, Message, request_vote, request_vote_reply, append_entries,
  append_entries_reply, install_snapshot, install_snapshot_reply,
}
use ferrium.Raft.State
use ferrium.Raft.State.{Role, follower, candidate, leader, VoteTally, contains, record_vote}
use ferrium.Raft.Node
use ferrium.Raft.Node.{Rand, RaftNode, RaftConfig, majority}
use ferrium.Raft.Node.Replicate.{
  apply_committed, apply_loop, apply_one, maybe_compact, broadcast_append,
}
use ferrium.Raft.Node.Roles.{become_follower, become_leader, become_candidate, stand}
use ferrium.Raft.Node.Handlers.{
  reject_append, accept_append, handle_request_vote, handle_append_entries, handle_install_snapshot,
  handle_request_vote_reply, handle_install_snapshot_reply,
}
use ferrium.Raft.Node.Drive.{tick, dispatch, step, propose, take_ready}
use ferrium.Raft.Run.{Event, ticked, received, proposed, drained, react, run, run_induction}
use ferrium.Raft.Inputs.{
  Role-cases, appended, beat, waited, propose_leader, propose_other, tick_leader, tick_other,
}
use ferrium.Raft.Frames.{
  Kept, become_leader-Kept, broadcast_append-Kept, advance_commit-Kept, request_loop_lem,
  role-advance_commit, role-broadcast_append,
}
use ferrium.Raft.Contracts.{handle_append_entries_reply-Kept, role-handle_append_entries_reply}

-- No name occurs twice.
abbrev pub Distinct : List NodeId → Type 0
Distinct [] = Unit
Distinct (v ∷ vs) = (contains vs v ≡ false) × Distinct vs

-- The tally of a candidate or a leader counts distinct voters; a leader has a majority of the
-- cluster.
pub record IsElected {G : Type 0} (n : RaftNode G) : Type 0 where
  pub distinct : Distinct n.votes.granted
  pub quorum : n.role ≡ leader → majority n ≤ length n.votes.granted

Distinct-record_vote :
    (v : NodeId) (t : VoteTally) → Distinct t.granted → Distinct (record_vote v t).0.granted
unfolding record_vote
Distinct-record_vote v t d = ground arith

module _ {G : Type 0} where
  majority-Kept : {a b : RaftNode G} → Kept a b → majority b ≡ majority a
  unfolding majority
  majority-Kept k = ground arith

  IsElected-Kept : {a b : RaftNode G} → Kept a b → b.role ≡ a.role → IsElected a → IsElected b
  unfolding majority
  IsElected-Kept k e v = ground arith

  IsElected-become_leader :
      (n : RaftNode G)
      → Distinct n.votes.granted
      → majority n ≤ length n.votes.granted
      → IsElected (become_leader n)
  unfolding majority
  IsElected-become_leader n d q = ground (arith, become_leader-Kept n)

  handle_request_vote_reply-IsElected :
      (m : RequestVoteReply) (n : RaftNode G)
      → IsElected n
      → IsElected (handle_request_vote_reply m n)
  unfolding handle_request_vote_reply record_vote majority
  handle_request_vote_reply-IsElected m n v =
      let d = Distinct-record_vote m.voter_id n.votes v.distinct in
      let n' : RaftNode G = record n { votes = (record_vote m.voter_id n.votes).0 } in
      if_intro IsElected _ n _ (λ _. v)
        (λ busy.
          if_intro IsElected m.vote_granted _ n
            (λ _.
              if_intro IsElected (leb (majority n) (record_vote m.voter_id n.votes).1)
                (become_leader n') n' (λ q. IsElected-become_leader n' d (leb→le _ _ q))
                (λ _. ground (arith, d, busy)))
            (λ _. v))

  -- Draining touches neither the role nor the votes.
  pub record Same (a b : RaftNode G) : Type 0 where
    pub role : b.role ≡ a.role
    votes : b.votes ≡ a.votes
    peers : b.peers ≡ a.peers

  apply_loop-Same : (fuel : ℕ) (n : RaftNode G) → Same n (apply_loop fuel n)
  unfolding apply_loop apply_one
  apply_loop-Same zero n = ground arith
  apply_loop-Same (suc fuel) n = ground (arith, apply_loop-Same fuel (apply_one n))

  pub apply_committed-Same : (n : RaftNode G) → Same n (apply_committed n)
  unfolding apply_committed maybe_compact
  apply_committed-Same n = ground (arith, apply_loop-Same (n.commit_index - n.last_applied) n)

  drained-IsElected : (n : RaftNode G) → IsElected n → IsElected (take_ready n).0
  unfolding take_ready majority
  drained-IsElected n v = ground (arith, apply_committed-Same n)

  proposed-IsElected : (c : Bytes) (n : RaftNode G) → IsElected n → IsElected (propose c n).0
  unfolding majority
  proposed-IsElected c n v = elim (Role-cases n.role) [
    | inl led ↦
        let b = broadcast_append (appended c n) in
        let w =
          IsElected-Kept (broadcast_append-Kept (appended c n))
            (role-broadcast_append (appended c n))
            (record { distinct = v.distinct; quorum = v.quorum }) in
        rw (propose_leader c n led)
          (IsElected-Kept (advance_commit-Kept b) (role-advance_commit b) w)
    | inr other ↦ rw (propose_other c n other) v
  ]

module _ (R : Rand) where
  open R use {StdRng}

  Distinct-stand : (n : RaftNode StdRng) → Distinct (stand R n).votes.granted
  unfolding stand State.clear record_vote contains
  Distinct-stand n = (refl, tt)

  become_candidate-IsElected : (n : RaftNode StdRng) → IsElected (become_candidate R n)
  unfolding become_candidate State.count
  become_candidate-IsElected n =
      let s : RaftNode StdRng = stand R n in
      ground (
        arith,
        Distinct-stand n,
        IsElected-become_leader s (Distinct-stand n),
        request_loop_lem s.peers
            (record {
              term = s.current_term;
              candidate_id = s.id;
              last_log_index = Log.last_index s.log;
              last_log_term = Log.last_term s.log;
            })
            s,
      )

  beat-IsElected : (n : RaftNode StdRng) → IsElected n → IsElected (beat R n)
  unfolding majority
  beat-IsElected n v =
      let b : RaftNode StdRng = record n { heartbeat_elapsed = 0 } in
      ground (arith, broadcast_append-Kept b, role-broadcast_append b)

  tick-IsElected : (n : RaftNode StdRng) → IsElected n → IsElected (tick R n)
  unfolding majority
  tick-IsElected n v = elim (Role-cases n.role) [
    | inl led ↦ rw (tick_leader R n led) (beat-IsElected n v)
    | inr other ↦
        rw (tick_other R n other) (ground (arith, become_candidate-IsElected (waited R n)))
  ]

  dispatch-IsElected :
      (from : NodeId) (msg : Message) (n : RaftNode StdRng)
      → IsElected n
      → IsElected (dispatch R from msg n)
  unfolding dispatch handle_request_vote handle_append_entries handle_install_snapshot
      handle_install_snapshot_reply accept_append reject_append majority
  dispatch-IsElected from (request_vote m) n v = ground arith
  dispatch-IsElected from (request_vote_reply m) n v = handle_request_vote_reply-IsElected m n v
  dispatch-IsElected from (append_entries m) n v = ground arith
  dispatch-IsElected from (append_entries_reply m) n v =
      IsElected-Kept (handle_append_entries_reply-Kept from m n)
        (role-handle_append_entries_reply from m n) v
  dispatch-IsElected from (install_snapshot m) n v = ground arith
  dispatch-IsElected from (install_snapshot_reply m) n v = ground arith

  step-IsElected :
      (from : NodeId) (msg : Message) (n : RaftNode StdRng)
      → IsElected n
      → IsElected (step R from msg n)
  unfolding step become_follower
  step-IsElected from msg n v = elim (Bool-cases (ltb n.current_term (Message.term msg))) [
    | inl newer ↦
        rw newer
          (dispatch-IsElected from msg _ (record { distinct = v.distinct; quorum = λ e. cc }))
    | inr older ↦ rw older (dispatch-IsElected from msg n v)
  ]

  pub react-IsElected : (e : Event) (n : RaftNode StdRng) → IsElected n → IsElected (react R e n)
  unfolding react
  react-IsElected ticked n v = tick-IsElected n v
  react-IsElected (received from msg) n v = step-IsElected from msg n v
  react-IsElected (proposed c) n v = proposed-IsElected c n v
  react-IsElected drained n v = drained-IsElected n v

  -- However a fresh node is driven by ticks, messages, proposals and drains, its tally holds
  -- distinct voters, and whenever it is a leader they number at least a majority of its cluster.
  pub run-IsElected :
      (id : NodeId) (peers : List NodeId) (config : RaftConfig) (es : List Event)
      → IsElected (run R es (Node.new R id peers config))
  unfolding Node.new
  run-IsElected id peers config es =
      run_induction R IsElected react-IsElected es (Node.new R id peers config)
        (record { distinct = tt; quorum = λ e. cc })
