-- ===== src/Server/Prompt.antt =====
-- src/server.rs: a write is answered in the round in which its leader commits it.
use ferrium.Common.{
  ℕ, ◌+◌, ◌≤◌, ◌<◌, ◌≡◌, ◌≢◌, refl, sym, ap, ◌∙◌, arith, Bool-cases, false, if_intro, some, List,
  [], ◌∷◌, Bytes, append-nil, length-append, length, All, inl, inr,
}
use ferrium.Raft.Log
use ferrium.Raft.Log.{LogEntry, RaftLog}
use ferrium.Raft.Log.Index.{Fits, last_index_lem}
use ferrium.Raft.State.{leader}
use ferrium.Raft.Node
use ferrium.Raft.Node.{Rand, RaftNode, Committed, command, snapshot}
use ferrium.Raft.Node.Drive.{ok, take_ready, propose}
use ferrium.Raft.Ready.{InOrder, take_ready_node}
use ferrium.Raft.Handed.{command_at, Appends-OneMore}
use ferrium.Raft.LeaderLog.{additions, react-Appends, Appends}
use ferrium.Raft.Run as Run
use ferrium.Raft.Run.{react, received, proposed}
use ferrium.Storage.Apply.{WriteCommand, Codec}
use ferrium.Server.{
  Driver, Sender, Waiters, update_metrics, drop_waiters, apply_all, process_ready, Event, ticked,
  inbound, request, peer, propose_write, get_status, answer_propose, handle_request, on_event,
  round, loop,
}
use ferrium.Server.Proposals.{node-answer_propose, by_leader}
use ferrium.Net.Config.{Config}
use ferrium.Raft.Ready.{take_ready-Drained}
use ferrium.Server.Start.{initial_driver}
use ferrium.Server.Answers.{waiting, answered, held, asks, held-round}
use ferrium.Server.Handover.{
  is_leader-role, emptied, node-process_ready, role-process_ready, committed-process_ready,
  waiters-process_ready,
}
use ferrium.Server.Keys.{
  AreDistinct, AllKeys, push_waiter-AllKeys, push_waiter-AreDistinct, All-map, IsStored,
  take_ready-IsStored, apply_all-Left,
}

-- A driver between two rounds, or before the drain of a leader's round.
record Pending {G : Type 0} (d : Driver G) : Type 0 where
  drained : d.node.committed ≡ []
  within : d.node.last_applied ≤ d.node.log.snapshot_index + length d.node.log.entries
  stored : AllKeys (IsStored d.node) d.waiters
  distinct : AreDistinct d.waiters

-- Whoever waits, waits for an index that is not committed.
abbrev pub IsPrompt : {G : Type 0} → Driver G → Type 0
IsPrompt d = All (λ x. d.node.commit_index < x.0) d.waiters

module _ (C : Codec) {G : Type 0} where
  -- The waiters behind the drain.
  record Behind (d : Driver G) (m : Waiters) : Type 0 where
    keys : AllKeys (λ k. (d.node.commit_index < k) × IsStored (take_ready d.node).0 k) m
    distinct : AreDistinct m

  process_ready-Behind :
      (d : Driver G) → InOrder d.node → Pending d → Behind d (process_ready C d).waiters
  unfolding process_ready update_metrics drop_waiters
  process_ready-Behind d v p =
      let cs = (take_ready d.node).1.committed in
      let r = apply_all-Left C (IsStored d.node) cs (emptied d) p.stored p.distinct in
      let a = apply_all C cs (emptied d) in
      let kept : Behind d a.waiters = record {
        keys =
            All-map _ _ a.waiters (λ x q. take_ready-IsStored d.node x.0 v p.drained q.0 q.1)
              r.keys;
        distinct = r.distinct;
      } in
      if_intro (λ (x : Driver G). Behind d x.waiters) (Node.is_leader a.node) _ _ (λ _. kept)
        λ _. record { keys = tt; distinct = tt }

  within-process_ready :
      (d : Driver G)
      → InOrder d.node
      → (process_ready C d).node.last_applied
        ≤ (process_ready C d).node.log.snapshot_index + length (process_ready C d).node.log.entries
  within-process_ready d v =
      let o = (take_ready-Drained d.node v).order in
      rw (node-process_ready C d) (omega (arith, o.applied, o.stored))

  process_ready-Pending :
      (d : Driver G)
      → InOrder d.node
      → Pending d
      → Pending (process_ready C d) × IsPrompt (process_ready C d)
  process_ready-Pending d v p =
      let b = process_ready-Behind d v p in
      let same = node-process_ready C d in
      let index : (take_ready d.node).0.commit_index ≡ d.node.commit_index =
        ap (λ (n : RaftNode G). n.commit_index) (take_ready_node d.node v) in
      (
        record {
          drained = committed-process_ready C d;
          within = within-process_ready d v;
          stored = rw same (All-map _ _ _ (λ x q. q.1) b.keys);
          distinct = b.distinct;
        },
        rw same (All-map _ _ _ (λ x q. omega (arith, index, q.0)) b.keys),
      )

  process_ready-empty :
      (d : Driver G)
      → InOrder d.node
      → Node.is_leader (process_ready C d).node ≡ false
      → Pending (process_ready C d) × IsPrompt (process_ready C d)
  process_ready-empty d v h =
      let none_left = waiters-process_ready C d h in
      (
        record {
          drained = committed-process_ready C d;
          within = within-process_ready d v;
          stored = rw none_left tt;
          distinct = rw none_left tt;
        },
        rw none_left tt,
      )

-- What stands at an index is in the log.
command_at-le :
    (log : RaftLog) (k : ℕ) (c : Bytes) → command_at log k ≡ some c → k ≤ Log.last_index log
unfolding Log.get
command_at-le log k c e = ground arith

module _ (R : Rand) (C : Codec) where
  open R use {StdRng}

  quiet-Pending :
      (d : Driver StdRng) (n : RaftNode StdRng)
      → Pending d
      → Appends [] d.node n
      → Pending (record d { node = n })
  quiet-Pending d n p a =
      let same : n.log ≡ d.node.log = a.log ∙ rw (append-nil d.node.log.entries) refl in
      record {
        drained = a.committed ∙ p.drained;
        within = rw (same, a.last_applied) p.within;
        stored = rw (same, a.last_applied) p.stored;
        distinct = p.distinct;
      }

  ok-Pending :
      (cmd : WriteCommand) (done : Sender) (d : Driver StdRng) (n : RaftNode StdRng)
      → Pending d
      → C.encode cmd ≢ []
      → Appends (additions (proposed (C.encode cmd)) d.node) d.node n
      → Fits n.log
      → Pending (answer_propose R C (n, ok (Log.last_index n.log)) done d)
  unfolding answer_propose
  ok-Pending cmd done d n p some_bytes a f =
      let entry : LogEntry = record { term = d.node.current_term; command = C.encode cmd } in
      let more = Appends-OneMore d.node.log entry n.log f a.log in
      let grown : n.log.snapshot_index + length n.log.entries
          ≡ d.node.log.snapshot_index + length d.node.log.entries + 1 =
        ap (λ (l : RaftLog). l.snapshot_index + length l.entries) a.log
        ∙ omega (arith, length-append d.node.log.entries (entry ∷ [])) in
      let old : (k : ℕ) → IsStored d.node k → IsStored n k = λ k (lo, (c, at_k, b)). (
        omega (arith, a.last_applied),
        (c, more.before_end k (command_at-le d.node.log k c at_k) ∙ at_k, b),
      ) in
      record {
        drained = a.committed ∙ p.drained;
        within = omega (arith, a.last_applied, p.within, grown);
        stored =
            push_waiter-AllKeys (IsStored n) (Log.last_index n.log) done d.waiters
              (
                omega (arith, a.last_applied, p.within, last_index_lem n.log f, grown),
                (C.encode cmd, more.at_end, some_bytes),
              )
              (All-map _ _ d.waiters (λ x q. old x.0 q) p.stored);
        distinct = push_waiter-AreDistinct (Log.last_index n.log) done d.waiters p.distinct;
      }

  -- The writes on a channel that events bring in.
  abbrev pub asked : Sender → List (Event R C) → ℕ
  asked k [] = 0
  asked k (e ∷ es) = asks R C k e + asked k es

  -- The node is in order at every drain.
  abbrev pub IsOrderly : List (Event R C) → Driver StdRng → Type 0
  IsOrderly [] d = Unit
  IsOrderly (e ∷ es) d = InOrder (on_event R C e d).node × IsOrderly es (round R C e d)

  module _ (some_bytes : (cmd : WriteCommand) → C.encode cmd ≢ []) where
    propose-Pending :
        (cmd : WriteCommand) (done : Sender) (d : Driver StdRng)
        → Pending d
        → (answer_propose R C (propose (C.encode cmd) d.node) done d).node.role ≡ leader
        → Fits (answer_propose R C (propose (C.encode cmd) d.node) done d).node.log
        → Pending (answer_propose R C (propose (C.encode cmd) d.node) done d)
    propose-Pending cmd done d p l f =
        let same = node-answer_propose R C (propose (C.encode cmd) d.node) done d in
        by_leader R C cmd done d Pending l λ a.
          ok-Pending cmd done d (propose (C.encode cmd) d.node).0 p (some_bytes cmd) a
            (rw (sym same) f)

    on_event-Pending :
        (e : Event R C) (d : Driver StdRng)
        → Pending d
        → (on_event R C e d).node.role ≡ leader
        → Fits (on_event R C e d).node.log
        → Pending (on_event R C e d)
    unfolding on_event handle_request react
    on_event-Pending ticked d p l f = quiet-Pending d _ p (react-Appends R Run.ticked d.node tt l)
    on_event-Pending (inbound from message) d p l f =
        quiet-Pending d _ p (react-Appends R (received from message) d.node tt l)
    on_event-Pending (request (peer from message)) d p l f =
        quiet-Pending d _ p (react-Appends R (received from message) d.node tt l)
    on_event-Pending (request (propose_write cmd done)) d p l f = propose-Pending cmd done d p l f
    on_event-Pending (request (get_status reply)) d p l f = record {
      drained = p.drained;
      within = p.within;
      stored = p.stored;
      distinct = p.distinct;
    }

    round-Pending :
        (e : Event R C) (d : Driver StdRng)
        → Pending d
        → InOrder (on_event R C e d).node
        → Pending (round R C e d) × IsPrompt (round R C e d)
    unfolding round
    round-Pending e d p v = elim (Bool-cases (Node.is_leader (round R C e d).node)) [
      | inl led ↦
          let l = sym (role-process_ready C (on_event R C e d)) ∙ is_leader-role _ led in
          process_ready-Pending C (on_event R C e d) v (on_event-Pending e d p l v.fits)
      | inr other ↦ process_ready-empty C (on_event R C e d) v other
    ]

    loop-Pending :
        (es : List (Event R C)) (d : Driver StdRng)
        → Pending d
        → IsPrompt d
        → IsOrderly es d
        → IsPrompt (loop R C es d)
    unfolding loop
    loop-Pending [] d p q o = q
    loop-Pending (e ∷ es) d p q (v, o) =
        let (p', q') = round-Pending e d p v in loop-Pending es _ p' q' o

    initial_driver-Pending : (c : Config) → Pending (initial_driver R c)
    unfolding initial_driver Node.new Node.initial_rng
    initial_driver-Pending c = record {
      drained = refl;
      within = omega arith;
      stored = tt;
      distinct = tt;
    }

    held-loop :
        (k : Sender) (es : List (Event R C)) (d : Driver StdRng)
        → held k (loop R C es d) ≡ asked k es + held k d
    unfolding loop
    held-loop k [] d = omega arith
    held-loop k (e ∷ es) d = omega (arith, held-loop k es (round R C e d), held-round R C k e d)

    -- However the driver of any node of a cluster is driven from its start, behind every round
    -- whoever still waits for an answer waits for an index above the commit index, and on each
    -- channel the writes that wait and the answers that were sent are together as many as the
    -- writes that events brought in: none is dropped, and none is left waiting for an index that
    -- is committed. The conditions: at every drain the node is in order, compacted <= applied <=
    -- committed <= stored, with room in the log for one more index, and no encoded command is
    -- empty.
    pub loop-IsPrompt :
        (c : Config) (es : List (Event R C))
        → IsOrderly es (initial_driver R c)
        → IsPrompt (loop R C es (initial_driver R c))
          × ((k : Sender)
              → waiting k (loop R C es (initial_driver R c)).waiters
                  + answered k (loop R C es (initial_driver R c)).outcomes
                ≡ asked k es)
    unfolding initial_driver held waiting answered
    loop-IsPrompt c es o = (
      loop-Pending es _ (initial_driver-Pending c) tt o,
      λ k. omega (arith, held-loop k es (initial_driver R c)),
    )
