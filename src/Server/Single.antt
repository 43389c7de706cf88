-- ===== src/Server/Single.antt =====
-- src/server.rs on a node that is alone: what a client sees is one map, written one command at a time.
use ferrium.Common.{
  ◌+◌, ◌<◌, ◌≡◌, ◌≢◌, refl, sym, ap, ◌∙◌, arith, List, [], ◌∷◌, ◌++◌, append_assoc, append-nil, map,
  length, u64_mod,
}
use ferrium.Raft.State.{leader}
use ferrium.Raft.Node
use ferrium.Raft.Node.{Rand, RaftNode, command}
use ferrium.Raft.Node.Drive.{take_ready}
use ferrium.Raft.Single.{
  IsSettled, end_of_log, written, propose-written, committed-written, take_ready-IsSettled,
  end_of_log-take_ready,
}
use ferrium.Storage.Engine.{MemoryEngine}
use ferrium.Storage.Apply.{WriteCommand, Codec, apply}
use ferrium.Server.{
  Driver, Sender, ProposeOutcome, committed, request, propose_write, push_waiter, remove_waiters,
  send_all, resolve, update_metrics, drop_waiters, apply_entry, apply_all, process_ready,
  send_messages, answer_propose, handle_request, on_event, round,
}

-- A lone leader's driver between two rounds: nothing is pending.
pub record IsIdle {G : Type 0} (d : Driver G) : Type 0 where
  pub node : IsSettled d.node
  pub answered : d.waiters ≡ []

pub drop_waiters-leader : {G : Type 0} (d : Driver G) → d.node.role ≡ leader → drop_waiters d ≡ d
unfolding drop_waiters Node.is_leader
drop_waiters-leader d e = rw e refl

module _ (R : Rand) (C : Codec) where
  open R use {StdRng}

  module _ (cmd : WriteCommand) (done : Sender) (d : Driver StdRng) (v : IsIdle d)
      (room : end_of_log d.node + 2 < u64_mod) (some_bytes : C.encode cmd ≢ []) where
    abbrev pub node' : RaftNode StdRng
    node' = (take_ready (written (C.encode cmd) d.node)).0

    -- The driver behind the answers, before the metrics are brought up to date.
    abbrev pub sent : Driver StdRng
    sent = record d {
      node = node';
      storage = (apply cmd d.storage).0;
      waiters = [];
      to_peers =
          d.to_peers
          ++ send_messages d.storage (take_ready (written (C.encode cmd) d.node)).1.messages;
      outcomes = d.outcomes ++ (done, committed) ∷ [];
    }

    on_event-write : on_event R C (request (propose_write cmd done)) d ≡ record d {
      node = written (C.encode cmd) d.node;
      waiters = (end_of_log d.node + 1, done ∷ []) ∷ [];
    }
    unfolding on_event handle_request answer_propose push_waiter
    on_event-write = rw (propose-written (C.encode cmd) d.node v.node room, v.answered) refl

    -- The driver behind the drain, before the command is applied.
    abbrev drained : Driver StdRng
    drained = record d {
      node = node';
      waiters = (end_of_log d.node + 1, done ∷ []) ∷ [];
      to_peers =
          d.to_peers
          ++ send_messages d.storage (take_ready (written (C.encode cmd) d.node)).1.messages;
    }

    apply_all-sent :
        apply_all C (take_ready (written (C.encode cmd) d.node)).1.committed drained ≡ sent
    unfolding apply_all apply_entry resolve remove_waiters send_all
    apply_all-sent =
        rw (committed-written (C.encode cmd) d.node v.node room some_bytes, C.decode-encode cmd)
          (ground arith)

    pub round-write : round R C (request (propose_write cmd done)) d ≡ update_metrics sent
    unfolding round process_ready update_metrics
    round-write =
        ap (process_ready C) on_event-write
        ∙ (ap (λ x. drop_waiters (update_metrics x)) apply_all-sent
            ∙ drop_waiters-leader (update_metrics sent)
                (take_ready-IsSettled (C.encode cmd) d.node v.node room).led)

  -- Writes handled one after the other, each in a round of its own.
  unfoldable pub rounds : List (WriteCommand × Sender) → Driver StdRng → Driver StdRng
  rounds [] d = d
  rounds ((cmd, done) ∷ ws) d = rounds ws (round R C (request (propose_write cmd done)) d)

  -- What should become of the map, and what the clients should hear.
  unfoldable pub applied : List (WriteCommand × Sender) → MemoryEngine → MemoryEngine
  applied [] e = e
  applied ((cmd, done) ∷ ws) e = applied ws (apply cmd e).0

  abbrev pub all_committed : List (WriteCommand × Sender) → List (Sender × ProposeOutcome)
  all_committed = map (λ w. (w.1, committed))

  -- The driver of a lone node that leads, with its log applied and committed, room in it and
  -- nothing pending, commits and applies each write in the round that brings it: after any writes
  -- the engine is what applying the commands in order makes of it, each client has been told so in
  -- order, and the node is as before ready for more. No encoded command is empty.
  rounds-IsIdle :
      (ws : List (WriteCommand × Sender)) (d : Driver StdRng)
      → IsIdle d
      → end_of_log d.node + length ws + 1 < u64_mod
      → ((cmd : WriteCommand) → C.encode cmd ≢ [])
      → ((rounds ws d).storage ≡ applied ws d.storage)
        × ((rounds ws d).outcomes ≡ d.outcomes ++ all_committed ws)
        × IsIdle (rounds ws d)
  unfolding rounds applied update_metrics
  rounds-IsIdle [] d v room some_bytes = (refl, sym (append-nil d.outcomes), v)
  rounds-IsIdle ((cmd, done) ∷ ws) d v room some_bytes =
      let d' : Driver StdRng = update_metrics (sent cmd done d v (omega arith) (some_bytes cmd)) in
      let w : IsIdle d' = record {
        node = take_ready-IsSettled (C.encode cmd) d.node v.node (omega arith);
        answered = refl;
      } in
      let (stored, told, idle) =
        rounds-IsIdle ws d' w
          (omega (arith, end_of_log-take_ready (C.encode cmd) d.node v.node (omega arith)))
          some_bytes in
      let e = round-write cmd done d v (omega arith) (some_bytes cmd) in
      (
        ap (λ x. (rounds ws x).storage) e ∙ stored,
        ap (λ x. (rounds ws x).outcomes) e
            ∙ (told ∙ append_assoc d.outcomes ((done, committed) ∷ []) (all_committed ws)),
        rw e idle,
      )
