-- ===== src/Examples/Acks.antt =====
-- The theorem on acknowledged writes at a concrete input: a leader of three nodes.
use ferrium.Common.{
  ◌+◌, ℕ, ◌≡◌, refl, arith, true, List, [], ◌∷◌, none, ◌++◌, bytes, lookup, insert, str_eq,
}
use ferrium.Raft.Log
use ferrium.Raft.Log.Index.{Fits}
use ferrium.Raft.Node
use ferrium.Raft.State.{
  reset, reset_loop, next_index, match_index, set_next_index, set_match_index, contains, clear,
  record_vote, count,
}
use ferrium.Raft.Node.{majority, cluster_size, send}
use ferrium.Raft.Node.Replicate.{
  replicated_on, pushed, send_append, broadcast_loop, broadcast_append, committable, commit_scan,
  advance_commit, apply_one, apply_loop, maybe_compact, apply_committed,
}
use ferrium.Raft.Node.Roles.{
  become_follower, become_leader, request_loop, reset_election_timer, stand, become_candidate,
}
use ferrium.Raft.Node.Handlers.{
  handle_append_entries, accept_append, handle_request_vote_reply, handle_append_entries_reply,
}
use ferrium.Raft.Node.Drive.{take_ready, tick, step, dispatch, propose}
use ferrium.Raft.Message
use ferrium.Raft.Message.{request_vote_reply, append_entries, append_entries_reply}
use ferrium.Storage.Engine
use ferrium.Storage.Apply.{apply, WriteCommand, set}
use ferrium.Net.Config.{Config}
use ferrium.Server.{
  Driver, Event, ticked, inbound, request, propose_write, round, loop, on_event, process_ready,
  handle_request, answer_propose, apply_all, update_metrics, drop_waiters, apply_entry, resolve,
  push_waiter, fail_waiters, send_all, remove_waiters, committed,
}
use ferrium.Server.Start.{initial_driver}
use ferrium.Server.Handover.{Acknowledges}
use ferrium.Server.Acknowledged.{Allowed, loop-Acknowledges}
use ferrium.Server.Prompt.{IsPrompt, IsOrderly, asked, loop-IsPrompt}
use ferrium.Server.Answers.{waiting, answered}
use ferrium.Examples.Nets.{config1}
use ferrium.Examples.Nodes.{fixed}
use ferrium.Examples.Driver.{some_bytes, lengths, encode_command, decode_command}

abbrev config3 : Config
config3 = record config1 { peers = record { id = bytes "n2"; addr = config1.addr } ∷ [] }

abbrev written : ℕ → WriteCommand
written done = set (bytes "k") (bytes "v")

-- It wins the election of term 1 and takes a write.
abbrev es : List (Event fixed lengths)
es =
    ticked
    ∷ ticked
    ∷ ticked
    ∷ ticked
    ∷ ticked
    ∷ ticked
    ∷ inbound (bytes "n2")
        (request_vote_reply (record { term = 1; vote_granted = true; voter_id = bytes "n2" }))
    ∷ request (propose_write (written 7) 7)
    ∷ []

abbrev d1 : Driver ℕ
d1 = loop fixed lengths es (initial_driver fixed config3)

-- Another node has the entry.
abbrev stored : Event fixed lengths
stored = inbound (bytes "n2") (
    append_entries_reply (record {
      term = 1;
      success = true;
      match_index = 1;
      follower_id = bytes "n2";
      conflict_index = 0;
    }))

-- The third node has become the leader of term 2, and sends another entry for the index that the
-- client waits for, already committed.
abbrev overthrown : Event fixed lengths
overthrown = inbound (bytes "n3") (
    append_entries (record {
      term = 2;
      leader_id = bytes "n3";
      prev_log_index = 0;
      prev_log_term = 0;
      entries = record { term = 2; command = encode_command (set (bytes "a") (bytes "b")) } ∷ [];
      leader_commit = 1;
    }))

abbrev d2 : Driver ℕ
d2 = round fixed lengths overthrown d1

-- The run is allowed, the node still leads behind the next round, and the client has its answer. If the
-- leader is overthrown instead, the client is told that its write is committed, and it is lost.
d1-leads :
    Allowed fixed lengths written es (initial_driver fixed config3)
    × Fits (on_event fixed lengths stored d1).node.log
    × (Node.is_leader (round fixed lengths stored d1).node ≡ true)
    × ((round fixed lengths stored d1).outcomes ≡ (7, committed) ∷ [])
    × IsOrderly fixed lengths (es ++ stored ∷ []) (initial_driver fixed config3)
    × ((d2.outcomes ≡ (7, committed) ∷ []) × (Engine.get d2.storage (bytes "k") ≡ none))
unfolding initial_driver Node.new Node.initial_rng Node.is_leader round process_ready on_event
    handle_request answer_propose apply_all apply_entry resolve update_metrics drop_waiters loop
    take_ready apply_committed maybe_compact apply_loop apply_one tick step dispatch propose
    become_candidate become_leader majority count record_vote Log.append Log.last_index Log.get
    advance_commit commit_scan committable broadcast_append broadcast_loop send_append send
    reset_election_timer handle_request_vote_reply handle_append_entries_reply request_loop
    cluster_size stand reset reset_loop next_index match_index set_next_index set_match_index
    contains clear replicated_on pushed lookup insert str_eq Message.term Log.term_at
    Log.entries_from Log.last_term push_waiter encode_command decode_command send_all remove_waiters
    fail_waiters handle_append_entries accept_append become_follower Log.matches Log.splice
    Log.splice_loop Log.agrees Log.truncate_from Engine.get Engine.set apply
d1-leads = (
  (
    tt,
    omega arith,
    (
      tt,
      omega arith,
      (
        tt,
        omega arith,
        (
          tt,
          omega arith,
          (tt, omega arith, (tt, omega arith, (tt, omega arith, (refl, omega arith, tt)))),
        ),
      ),
    ),
  ),
  omega arith,
  refl,
  refl,
  (
    omega arith,
    (
      omega arith,
      (
        omega arith,
        (
          omega arith,
          (omega arith, (omega arith, (omega arith, (omega arith, (omega arith, tt))))),
        ),
      ),
    ),
  ),
  (refl, refl),
)

loop-Acknowledges_example :
    Acknowledges lengths written
      (take_ready (on_event fixed lengths stored d1).node).1.committed
      d1
      (round fixed lengths stored d1)
loop-Acknowledges_example =
    let (allowed, room, leads, told, orderly, lost) = d1-leads in
    loop-Acknowledges fixed lengths written config3 es stored allowed tt room leads

loop-IsPrompt_example :
    IsPrompt (loop fixed lengths (es ++ stored ∷ []) (initial_driver fixed config3))
    × ((k : ℕ)
        → waiting k (loop fixed lengths (es ++ stored ∷ []) (initial_driver fixed config3)).waiters
            + answered k
                (loop fixed lengths (es ++ stored ∷ []) (initial_driver fixed config3)).outcomes
          ≡ asked fixed lengths k (es ++ stored ∷ []))
loop-IsPrompt_example =
    let (allowed, room, leads, told, orderly, lost) = d1-leads in
    loop-IsPrompt fixed lengths some_bytes config3 (es ++ stored ∷ []) orderly
