-- ===== src/Raft/Frames.antt =====
-- What the helpers of src/raft/node.rs leave alone: each is an update of a few fields.
use ferrium.Common.{
  sym, ◌∙◌, append-singleton_injective, ℕ, ◌+◌, ◌-◌, ◌≡◌, refl, ap, some, List, [], ◌∷◌, ◌++◌,
  append_assoc, append-nil, arith, leb, if◌then◌else◌, u64,
}
use mathlib.Core.Option
use ferrium.Raft.Log
use ferrium.Raft.Message.{
  NodeId, RequestVote, Message, request_vote, append_entries, install_snapshot,
}
use ferrium.Raft.State
use ferrium.Raft.State.{follower, candidate, leader}
use ferrium.Raft.Node.{RaftNode, Envelope, send}
use ferrium.Raft.Node.Replicate.{
  send_append, broadcast_loop, broadcast_append, commit_scan, advance_commit,
}
use ferrium.Raft.Node.Roles.{request_loop, become_leader}

unfoldable pub request_envelopes : RequestVote → List NodeId → List Envelope
request_envelopes r [] = []
request_envelopes r (p ∷ ps) = record { to = p; message = request_vote r } ∷ request_envelopes r ps

module _ {G : Type 0} where
  -- What a leader sends to one peer: a snapshot if the entries that it needs are gone, else all
  -- entries from `next_index` on.
  unfoldable pub append_message : NodeId → RaftNode G → Message
  append_message peer n =
      let next = State.next_index n.progress peer in
      if leb next n.log.snapshot_index
      then install_snapshot (record {
        term = n.current_term;
        leader_id = n.id;
        last_included_index = n.log.snapshot_index;
        last_included_term = Log.last_term n.log;
        contents = [];
      })
      else append_entries (record {
        term = n.current_term;
        leader_id = n.id;
        prev_log_index = next - 1;
        prev_log_term = Option.get_or (Log.term_at n.log (next - 1)) 0;
        entries = Log.entries_from n.log next;
        leader_commit = n.commit_index;
      })

  abbrev pub envelopes : RaftNode G → List NodeId → List Envelope
  envelopes n [] = []
  envelopes n (p ∷ ps) = record { to = p; message = append_message p n } ∷ envelopes n ps

  pub send_append_lem :
      (p : NodeId) (n : RaftNode G)
      → send_append p n ≡ record n { outgoing = n.outgoing ++ envelopes n (p ∷ []) }
  unfolding send_append append_message
  send_append_lem p n = ground arith

  -- The one message that `send_append` adds is this one.
  pub send_append-message :
      (p : NodeId) (n : RaftNode G) (message : Message)
      → (send_append p n).outgoing ≡ n.outgoing ++ record { to = p; message = message } ∷ []
      → append_message p n ≡ message
  send_append-message p n message e =
      let l = ap (λ (m : RaftNode G). m.outgoing) (send_append_lem p n) in
      ap (λ (x : Envelope). x.message)
        (append-singleton_injective n.outgoing (record { to = p; message = append_message p n })
          (record { to = p; message = message }) (sym l ∙ e))

  envelopes-out :
      (n : RaftNode G) (out : List Envelope) (ps : List NodeId)
      → envelopes (record n { outgoing = out }) ps ≡ envelopes n ps
  unfolding append_message
  envelopes-out n out [] = refl
  envelopes-out n out (p ∷ ps) = rw (envelopes-out n out ps)

  broadcast_loop_lem :
      (ps : List NodeId) (n : RaftNode G)
      → broadcast_loop ps n ≡ record n { outgoing = n.outgoing ++ envelopes n ps }
  unfolding broadcast_loop
  broadcast_loop_lem [] n = rw (append-nil n.outgoing)
  broadcast_loop_lem (p ∷ ps) n =
      let out = n.outgoing ++ envelopes n (p ∷ []) in
      rw (send_append_lem p n) (
        rw (broadcast_loop_lem ps (record n { outgoing = out })) (
          rw (
            envelopes-out n out ps,
            append_assoc n.outgoing (envelopes n (p ∷ [])) (envelopes n ps),
          )))

  -- A broadcast is one message to every peer, in order, and nothing else.
  pub broadcast_append_lem :
      (n : RaftNode G)
      → broadcast_append n ≡ record n { outgoing = n.outgoing ++ envelopes n n.peers }
  unfolding broadcast_append
  broadcast_append_lem n = broadcast_loop_lem n.peers n

  -- The commit index that `advance_commit` computes.
  unfoldable pub advanced : RaftNode G → ℕ
  advanced n = elim n.role [
    | leader ↦ let lo = u64 (n.commit_index + 1) in commit_scan n lo (Log.last_index n.log + 1 - lo)
    | _ ↦ n.commit_index
  ]

  pub advance_commit_lem :
      (n : RaftNode G) → advance_commit n ≡ record n { commit_index = advanced n }
  unfolding advance_commit advanced
  advance_commit_lem n = ground arith

  pub request_loop_lem :
      (ps : List NodeId) (r : RequestVote) (n : RaftNode G)
      → request_loop ps r n ≡ record n { outgoing = n.outgoing ++ request_envelopes r ps }
  unfolding request_loop request_envelopes
  request_loop_lem [] r n = rw (append-nil n.outgoing)
  request_loop_lem (p ∷ ps) r n =
      rw (request_loop_lem ps r (send p (request_vote r) n)) (rw append_assoc)

  -- A new leader, before its first broadcast.
  unfoldable pub crowned : RaftNode G → RaftNode G
  crowned n = record n {
    role = leader;
    leader_id = some n.id;
    progress = State.reset n.peers (Log.last_index n.log) n.progress;
    heartbeat_elapsed = 0;
  }

  pub become_leader_lem :
      (n : RaftNode G)
      → become_leader n ≡ record (crowned n) {
        outgoing = n.outgoing ++ envelopes (crowned n) n.peers;
        commit_index =
            advanced
              (record (crowned n) { outgoing = n.outgoing ++ envelopes (crowned n) n.peers });
      }
  unfolding become_leader crowned
  become_leader_lem n = rw (broadcast_append_lem (crowned n)) (advance_commit_lem _)

  -- `b` differs from `a` only in what replication and role changes touch.
  pub record Kept (a b : RaftNode G) : Type 0 where
    pub id : b.id ≡ a.id
    pub peers : b.peers ≡ a.peers
    pub config : b.config ≡ a.config
    pub current_term : b.current_term ≡ a.current_term
    pub voted_for : b.voted_for ≡ a.voted_for
    pub log : b.log ≡ a.log
    pub votes : b.votes ≡ a.votes
    pub last_applied : b.last_applied ≡ a.last_applied
    pub committed : b.committed ≡ a.committed
    pub election_timeout : b.election_timeout ≡ a.election_timeout

  pub broadcast_append-Kept : (n : RaftNode G) → Kept n (broadcast_append n)
  broadcast_append-Kept n = rw (broadcast_append_lem n) (ground arith)

  pub send_append-Kept : (p : NodeId) (n : RaftNode G) → Kept n (send_append p n)
  send_append-Kept p n = rw (send_append_lem p n) (ground arith)

  pub advance_commit-Kept : (n : RaftNode G) → Kept n (advance_commit n)
  advance_commit-Kept n = rw (advance_commit_lem n) (ground arith)

  pub become_leader-Kept : (n : RaftNode G) → Kept n (become_leader n)
  unfolding crowned
  become_leader-Kept n = rw (become_leader_lem n) (ground arith)

  pub role-become_leader : (n : RaftNode G) → (become_leader n).role ≡ leader
  unfolding crowned
  role-become_leader n = ap (λ (m : RaftNode G). m.role) (become_leader_lem n)

  pub role-advance_commit : (n : RaftNode G) → (advance_commit n).role ≡ n.role
  role-advance_commit n = ap (λ (m : RaftNode G). m.role) (advance_commit_lem n)

  pub role-broadcast_append : (n : RaftNode G) → (broadcast_append n).role ≡ n.role
  role-broadcast_append n = ap (λ (m : RaftNode G). m.role) (broadcast_append_lem n)

  pub role-send_append : (p : NodeId) (n : RaftNode G) → (send_append p n).role ≡ n.role
  role-send_append p n = ap (λ (m : RaftNode G). m.role) (send_append_lem p n)
