-- ===== src/Raft/Replication.antt =====
-- One round of replication in src/raft/node.rs: what a leader sends, and what the follower then
-- holds.
use ferrium.Common.{
  ◌++◌, [], ◌∷◌, ℕ, ◌+◌, ◌-◌, ◌≤◌, ◌<◌, ◌≡◌, arith, List, length, drop, get_elem?, get_elem?-drop,
  length-drop, true, u64_mod,
}
use mathlib.Core.Option
use ferrium.Raft.Log
use ferrium.Raft.Log.{LogEntry, RaftLog}
use ferrium.Raft.Log.Index.{Fits, get_lem, term_at_lem}
use ferrium.Raft.Log.Merge.{Matching, term_at-splice, get-splice}
use ferrium.Raft.Log.Protect.{matches-le}
use ferrium.Raft.Message
use ferrium.Raft.Message.{NodeId, AppendEntries, Message, append_entries}
use ferrium.Raft.State
use ferrium.Raft.Node.{Rand, RaftNode}
use ferrium.Raft.Node.Roles.{become_follower}
use ferrium.Raft.Node.Handlers.{accept_append, handle_append_entries}
use ferrium.Raft.Node.Drive.{dispatch, step}
use ferrium.Raft.Node.Replicate.{send_append}
use ferrium.Raft.Frames.{append_message, send_append-message}

module _ (R : Rand) where
  open R use {StdRng}

  log-step_append :
      (from : NodeId) (m : AppendEntries) (n : RaftNode StdRng)
      → n.current_term ≤ m.term
      → Log.matches n.log m.prev_log_index m.prev_log_term ≡ true
      → (step R from (append_entries m) n).log ≡ (Log.splice m.prev_log_index m.entries n.log).0
  unfolding step dispatch Message.term become_follower handle_append_entries accept_append
  log-step_append from m n h ok = ground arith

  module _ (leader follower : RaftNode StdRng) (peer from : NodeId) (next : ℕ)
      (sent_message : Message)
      (is_sent : (send_append peer leader).outgoing
        ≡ leader.outgoing ++ record { to = peer; message = sent_message } ∷ [])
      (is_next : State.next_index leader.progress peer ≡ next) (leader_fits : Fits leader.log)
      (present : leader.log.snapshot_index < next)
      (not_past : next ≤ leader.log.snapshot_index + length leader.log.entries + 1)
      (follows : follower.current_term ≤ leader.current_term)
      (above : follower.log.snapshot_index < next)
      (follower_fits : follower.log.snapshot_index
          + length follower.log.entries
          + length leader.log.entries
          + 1
        < u64_mod)
      (matching : Log.matches follower.log
          (next - 1)
          (Option.get_or (Log.term_at leader.log (next - 1)) 0)
        ≡ true) where
    abbrev pub sent : List LogEntry
    sent = Log.entries_from leader.log next

    abbrev message : AppendEntries
    message = record {
      term = leader.current_term;
      leader_id = leader.id;
      prev_log_index = next - 1;
      prev_log_term = Option.get_or (Log.term_at leader.log (next - 1)) 0;
      entries = sent;
      leader_commit = leader.commit_index;
    }

    message_lem : sent_message ≡ append_entries message
    unfolding append_message
    message_lem = ground (arith, is_next, send_append-message peer leader sent_message is_sent)

    new_log : (step R from sent_message follower).log ≡ (Log.splice (next - 1) sent follower.log).0
    new_log = rw message_lem (log-step_append from message follower follows matching)

    length-sent : length sent + next ≡ leader.log.snapshot_index + length leader.log.entries + 1
    unfolding Log.entries_from
    length-sent =
        ground (arith, length-drop (next - leader.log.snapshot_index - 1) leader.log.entries)

    get_elem?-sent :
        (j : ℕ)
        → get_elem? sent j ≡ get_elem? leader.log.entries (next - leader.log.snapshot_index - 1 + j)
    unfolding Log.entries_from
    get_elem?-sent j =
        ground (arith, get_elem?-drop (next - leader.log.snapshot_index - 1) leader.log.entries j)

    follower_room :
        (next - 1 ≤ follower.log.snapshot_index + length follower.log.entries)
        × (follower.log.snapshot_index + length follower.log.entries + length sent + 1 < u64_mod)
    follower_room = (
      matches-le follower.log (next - 1) _ (omega arith) (omega arith) matching,
      omega (arith, length-sent),
    )

    -- One round of replication: after a follower handles the message that a leader builds for it,
    -- it has the leader's term at every index from next_index to the end of the leader's log. The
    -- conditions: next_index is not compacted away at either node nor past the leader's log, the
    -- follower's term is not newer, its log matches the message's previous index and term, and
    -- indices have room below 2^64.
    pub term_at-replicated :
        (i : ℕ)
        → next ≤ i
        → i ≤ leader.log.snapshot_index + length leader.log.entries
        → Log.term_at (step R from sent_message follower).log i ≡ Log.term_at leader.log i
    term_at-replicated i lo hi =
        let j = i - next in
        let e : next - 1 + 1 + j ≡ i = omega arith in
        let e' : i - leader.log.snapshot_index - 1 ≡ next - leader.log.snapshot_index - 1 + j =
          omega arith in
        rw (new_log, term_at_lem leader.log i leader_fits (omega arith), e', ← get_elem?-sent j)
          (let t =
              term_at-splice follower.log (next - 1) sent (omega arith) follower_room.0
                follower_room.1 j (omega (arith, length-sent)) in
            rw e at t)

    -- Under the conditions of the round of replication, and if the follower's entries behind the
    -- previous index equal the sent ones wherever their terms do, the follower has the leader's
    -- entry at every index from next_index to the end of the leader's log.
    get-replicated :
        (i : ℕ)
        → next ≤ i
        → i ≤ leader.log.snapshot_index + length leader.log.entries
        → Matching (drop (next - 1 - follower.log.snapshot_index) follower.log.entries) sent
        → Log.get (step R from sent_message follower).log i ≡ Log.get leader.log i
    get-replicated i lo hi same =
        let j = i - next in
        let e : next - 1 + 1 + j ≡ i = omega arith in
        let e' : i - leader.log.snapshot_index - 1 ≡ next - leader.log.snapshot_index - 1 + j =
          omega arith in
        let l = get_lem leader.log i leader_fits in
        let t =
          get-splice follower.log (next - 1) sent (omega arith) follower_room.0 follower_room.1 j
            (omega (arith, length-sent)) same in
        rw new_log (ground (arith, e, e', l, t, get_elem?-sent j))
