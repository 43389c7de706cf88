-- ===== src/Raft/Order.antt =====
-- Committed entries in src/raft/node.rs: no input moves the commit index back or changes an entry
-- at or below it, and compacted, applied, committed and stored indices stay in that order.
pub mod Step
use ferrium.Common.{
  ℕ, ◌+◌, ◌-◌, ◌≤◌, ◌<◌, ◌≡◌, refl, ap, ◌∙◌, arith, leb, ltb, List, [], ◌∷◌, length, length-append,
  take, drop, u64, u64_mod, Bytes, Bool-cases, if_intro, not, ◌||◌, ◌==◌, max, inl, inr, true, none,
  some, ltb→lt, lt→ltb,
}
use ferrium.Raft.Log
use ferrium.Raft.Log.Index.{last_index_lem}
use ferrium.Raft.Log.Compact.{get-append}
use ferrium.Raft.Log.Merge.{Covers, Fits-splice}
use ferrium.Raft.Log.Protect.{snapshot_index-splice, matches-le, le-splice, get-splice_Covers}
use ferrium.Raft.Message
use ferrium.Raft.Message.{
  NodeId, AppendEntries, AppendEntriesReply, RequestVoteReply, Message, request_vote,
  request_vote_reply, append_entries, append_entries_reply, install_snapshot,
  install_snapshot_reply,
}
use ferrium.Raft.State
use ferrium.Raft.State.{Role, follower, candidate, leader}
use ferrium.Raft.Node.{Rand, RaftNode, majority}
use ferrium.Raft.Node.Replicate.{send_append, broadcast_append, advance_commit}
use ferrium.Raft.Node.Roles.{become_follower, become_leader, become_candidate, stand}
use ferrium.Raft.Node.Handlers.{
  reject_append, accept_append, handle_request_vote, handle_append_entries, handle_install_snapshot,
  is_role, handle_request_vote_reply, handle_append_entries_reply, handle_install_snapshot_reply,
}
use ferrium.Raft.Node.Drive.{tick, dispatch, step, propose}
use ferrium.Raft.Frames.{
  Kept, broadcast_append-Kept, advance_commit-Kept, request_loop_lem, broadcast_append_lem,
  send_append_lem, advanced, advance_commit_lem,
}
use ferrium.Raft.Commit.{advance_commit-IsCommittable}
use ferrium.Raft.Inputs.{
  Role-cases, appended, beat, waited, propose_leader, propose_other, tick_leader, tick_other,
}
use ferrium.Raft.Ready.{InOrder}

module _ {G : Type 0} where
  pub record Forward (n n' : RaftNode G) : Type 0 where
    pub order : InOrder n'
    pub commit : n.commit_index ≤ n'.commit_index
    pub kept : (i : ℕ) → i ≤ n.commit_index → Log.get n'.log i ≡ Log.get n.log i

  Forward-Kept :
      {n n' : RaftNode G} → InOrder n → Kept n n' → n'.commit_index ≡ n.commit_index → Forward n n'
  Forward-Kept v k e = record {
    order = ground arith;
    commit = omega arith;
    kept = λ i h. ap (λ (l : Log.RaftLog). Log.get l i) k.log;
  }

  Forward-trans : {a b c : RaftNode G} → Forward a b → Forward b c → Forward a c
  Forward-trans x y = record {
    order = y.order;
    commit = omega (arith, x.commit, y.commit);
    kept = λ i h. y.kept i (omega (arith, x.commit)) ∙ x.kept i h;
  }

  advance_commit-Forward : (n : RaftNode G) → InOrder n → Forward n (advance_commit n)
  advance_commit-Forward n v = elim (Role-cases n.role) [
    | inl led ↦
        let h =
          advance_commit-IsCommittable n led v.fits
            (omega (arith, last_index_lem n.log v.fits, v.stored)) in
        let k = advance_commit-Kept n in
        record {
          order = ground (arith, h, k, last_index_lem n.log v.fits);
          commit = h.1;
          kept = λ i p. ap (λ (l : Log.RaftLog). Log.get l i) k.log;
        }
    | inr other ↦
        Forward-Kept v (advance_commit-Kept n)
          (rw (advance_commit_lem n) (unfold advanced in ground (arith, other)))
  ]

  broadcast_append-Forward : (n : RaftNode G) → InOrder n → Forward n (broadcast_append n)
  broadcast_append-Forward n v =
      Forward-Kept v (broadcast_append-Kept n)
        (ap (λ (m : RaftNode G). m.commit_index) (broadcast_append_lem n))

  -- An update of other fields.
  Forward-same :
      {n n' : RaftNode G}
      → InOrder n
      → n'.log ≡ n.log
      → n'.commit_index ≡ n.commit_index
      → n'.last_applied ≡ n.last_applied
      → Forward n n'
  Forward-same v l c a = record {
    order = ground arith;
    commit = omega arith;
    kept = λ i h. ap (λ (l : Log.RaftLog). Log.get l i) l;
  }

  -- First an update of other fields, then a step that goes forward.
  Forward-after :
      {n n' : RaftNode G} (m : RaftNode G)
      → InOrder n
      → m.log ≡ n.log
      → m.commit_index ≡ n.commit_index
      → m.last_applied ≡ n.last_applied
      → (InOrder m → Forward m n')
      → Forward n n'
  Forward-after m v l c a f = let x = Forward-same v l c a in Forward-trans {b = m} x (f x.order)

  become_leader-Forward : (n : RaftNode G) → InOrder n → Forward n (become_leader n)
  unfolding become_leader
  become_leader-Forward n v =
      let m : RaftNode G = record n {
        role = leader;
        leader_id = some n.id;
        progress = State.reset n.peers (Log.last_index n.log) n.progress;
        heartbeat_elapsed = 0;
      } in
      Forward-after m v refl refl refl (λ w.
        let b = broadcast_append-Forward m w in
        Forward-trans b (advance_commit-Forward (broadcast_append m) b.order))

  handle_request_vote_reply-Forward :
      (m : RequestVoteReply) (n : RaftNode G)
      → InOrder n
      → Forward n (handle_request_vote_reply m n)
  unfolding handle_request_vote_reply
  handle_request_vote_reply-Forward m n v =
      let (votes', count) = State.record_vote m.voter_id n.votes in
      let n' : RaftNode G = record n { votes = votes' } in
      if_intro (Forward n) (not (is_role n.role candidate) || not (m.term == n.current_term)) n _
        (λ _. Forward-same v refl refl refl)
        (λ _.
          if_intro (Forward n) m.vote_granted _ n
            (λ _.
              if_intro (Forward n) (leb (majority n) count) (become_leader n') n'
                (λ _. Forward-after n' v refl refl refl (become_leader-Forward n'))
                (λ _. Forward-same v refl refl refl))
            (λ _. Forward-same v refl refl refl))

  handle_append_entries_reply-Forward :
      (from : NodeId) (m : AppendEntriesReply) (n : RaftNode G)
      → InOrder n
      → Forward n (handle_append_entries_reply from m n)
  unfolding handle_append_entries_reply
  handle_append_entries_reply-Forward from m n v =
      let won : RaftNode G = record n {
        progress =
            State.set_next_index from (u64 (m.match_index + 1))
              (State.set_match_index from m.match_index n.progress);
      } in
      let lost : RaftNode G = record n {
        progress = State.set_next_index from (max m.conflict_index 1) n.progress;
      } in
      if_intro (Forward n) (not (is_role n.role leader) || not (m.term == n.current_term)) n _
        (λ _. Forward-same v refl refl refl)
        (λ _.
          if_intro (Forward n) m.success (advance_commit won) (send_append from lost)
            (λ _. Forward-after won v refl refl refl (advance_commit-Forward won))
            (λ _. rw (send_append_lem from lost) (Forward-same v refl refl refl)))

  appended-Forward :
      (c : Bytes) (n : RaftNode G)
      → InOrder n
      → n.log.snapshot_index + length n.log.entries + 2 < u64_mod
      → Forward n (appended c n)
  unfolding Log.append
  appended-Forward c n v room =
      let e : List Log.LogEntry = record { term = n.current_term; command = c } ∷ [] in
      let l = length-append n.log.entries e in
      record {
        order = ground (arith, l);
        commit = omega arith;
        kept = λ i h. ground (arith, l, get-append n.log e i, last_index_lem n.log v.fits);
      }

  -- A proposal to a node in order whose log has room for one more index keeps the order, does not
  -- lower the commit index and changes no committed entry.
  propose-Forward :
      (c : Bytes) (n : RaftNode G)
      → InOrder n
      → n.log.snapshot_index + length n.log.entries + 2 < u64_mod
      → Forward n (propose c n).0
  propose-Forward c n v room = elim (Role-cases n.role) [
    | inl led ↦ rw (propose_leader c n led) (
        let x = appended-Forward c n v room in
        let b = broadcast_append-Forward (appended c n) x.order in
        Forward-trans x
          (Forward-trans b (advance_commit-Forward (broadcast_append (appended c n)) b.order)))
    | inr other ↦ rw (propose_other c n other) (Forward-same v refl refl refl)
  ]
