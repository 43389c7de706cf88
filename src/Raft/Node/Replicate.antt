-- ===== src/Raft/Node/Replicate.antt =====
-- src/raft/node.rs, the driving of replication: what a leader sends to each peer, how it advances
-- its commit index, and how committed entries are handed to the state machine.
use ferrium.Common.{
  ℕ, zero, suc, ◌+◌, ◌-◌, Bool, true, false, ◌&&◌, Option, none, some, List, [], ◌∷◌, ◌++◌, Bytes,
  leb, ltb, ◌==◌, if◌then◌else◌, u64,
}
use mathlib.Core.Option
use ferrium.Raft.Log
use ferrium.Raft.Log.{LogEntry, RaftLog}
use ferrium.Raft.Message.{NodeId, append_entries, install_snapshot}
use ferrium.Raft.State
use ferrium.Raft.State.{Role, leader, LeaderProgress}
use ferrium.Raft.Node.{RaftNode, Committed, command, send, majority}

-- The peers whose match index reaches `n`: the inner loop of `advance_commit`.
unfoldable pub replicated_on : LeaderProgress → ℕ → List NodeId → ℕ
replicated_on p i [] = 0
replicated_on p i (peer ∷ peers) =
    (if leb i (State.match_index p peer) then 1 else 0) + replicated_on p i peers

abbrev pub is_empty : Bytes → Bool
is_empty [] = true
is_empty (x ∷ xs) = false

-- What one round of `apply_committed` pushes.
unfoldable pub pushed : ℕ → Option LogEntry → List Committed
pushed i none = []
pushed i (some entry) = if is_empty entry.command then [] else command i entry.command ∷ []

module _ {G : Type 0} where
  unfoldable pub send_append : NodeId → RaftNode G → RaftNode G
  unfolding send
  send_append peer n =
      let next = State.next_index n.progress peer in
      if leb next n.log.snapshot_index
      then send peer
          (install_snapshot (record {
            term = n.current_term;
            leader_id = n.id;
            last_included_index = n.log.snapshot_index;
            last_included_term = Log.last_term n.log;
            contents = [];
          }))
          n
      else send peer
          (append_entries (record {
            term = n.current_term;
            leader_id = n.id;
            prev_log_index = next - 1;
            prev_log_term = Option.get_or (Log.term_at n.log (next - 1)) 0;
            entries = Log.entries_from n.log next;
            leader_commit = n.commit_index;
          }))
          n

  -- The loop of `broadcast_append`.
  unfoldable pub broadcast_loop : List NodeId → RaftNode G → RaftNode G
  broadcast_loop [] n = n
  broadcast_loop (peer ∷ peers) n = broadcast_loop peers (send_append peer n)

  unfoldable pub broadcast_append : RaftNode G → RaftNode G
  broadcast_append n = broadcast_loop n.peers n

  -- `term_at(n) == Some(current_term)`, and a majority holds the entry, the leader included.
  unfoldable pub committable : RaftNode G → ℕ → Bool
  committable n i =
      elim (Log.term_at n.log i) [ some t ↦ t == n.current_term | none ↦ false ]
      && leb (majority n) (1 + replicated_on n.progress i n.peers)

  -- `for n in (lo..lo + len).rev()`: the first index from the top that can be committed.
  unfoldable pub commit_scan : RaftNode G → ℕ → ℕ → ℕ
  commit_scan n lo zero = n.commit_index
  commit_scan n lo (suc len) =
      let lower = commit_scan n lo len in if committable n (lo + len) then lo + len else lower

  unfoldable pub advance_commit : RaftNode G → RaftNode G
  advance_commit n = elim n.role [
    | leader ↦
        let lo = u64 (n.commit_index + 1) in
        record n { commit_index = commit_scan n lo (Log.last_index n.log + 1 - lo) }
    | _ ↦ n
  ]

  unfoldable pub apply_one : RaftNode G → RaftNode G
  apply_one n =
      let i = u64 (n.last_applied + 1) in
      record n { last_applied = i; committed = n.committed ++ pushed i (Log.get n.log i) }

  -- The `while` of `apply_committed`, on fuel.
  unfoldable pub apply_loop : ℕ → RaftNode G → RaftNode G
  apply_loop zero n = n
  apply_loop (suc fuel) n = elim (ltb n.last_applied n.commit_index) [
    | true ↦ apply_loop fuel (apply_one n)
    | false ↦ n
  ]

  -- `saturating_sub` is the subtraction of ℕ.
  unfoldable pub maybe_compact : RaftNode G → RaftNode G
  maybe_compact n =
      if leb n.config.snapshot_threshold (n.last_applied - n.log.snapshot_index)
      then record n { log = Log.compact n.last_applied n.log }
      else n

  unfoldable pub apply_committed : RaftNode G → RaftNode G
  apply_committed n = maybe_compact (apply_loop (n.commit_index - n.last_applied) n)
