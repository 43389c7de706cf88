-- ===== src/Server/Acknowledged.antt =====
-- src/server.rs on any node of a cluster: which writes a leader's driver acknowledges.
use ferrium.Common.{
  ◌≡◌, refl, sym, Bool-cases, true, inl, inr, ◌∙◌, arith, true, List, [], ◌∷◌, append-nil,
  Bool-cases, inl, inr,
}
use ferrium.Raft.Log
use ferrium.Raft.Log.{LogEntry, RaftLog}
use ferrium.Raft.Log.Index.{Fits}
use ferrium.Raft.State.{leader}
use ferrium.Raft.Node
use ferrium.Raft.Node.{Rand, RaftNode, Committed, command, snapshot}
use ferrium.Raft.Node.Drive.{ok, take_ready, propose}
use ferrium.Storage.Apply.{WriteCommand, Codec}
use ferrium.Server.{
  Driver, Sender, Event, on_event, round, loop, ticked, inbound, request, peer, propose_write,
  get_status, answer_propose, handle_request,
}
use ferrium.Raft.LeaderLog.{additions, react-Appends, Appends}
use ferrium.Raft.Run as Run
use ferrium.Raft.Run.{react, received, proposed}
use ferrium.Net.Config.{Config}
use ferrium.Server.Start.{initial_driver}
use ferrium.Raft.Handed.{Appends-OneMore}
use ferrium.Server.Proposals.{node-answer_propose, by_leader}
use ferrium.Server.Promises.{push_waiter-Awaits, All-Awaits}
use ferrium.Server.Handover.{
  is_leader-role, process_ready-leader, role-process_ready, process_ready-other, Acknowledges-same,
  Tracks, Acknowledges,
}

module _ (R : Rand) (C : Codec) (written : Sender → WriteCommand) where
  open R use {StdRng}

  -- The event brings no other write on a channel than the one that is `written` there.
  abbrev pub Sends : Event R C → Type 0
  Sends (request (propose_write cmd done)) = cmd ≡ written done
  Sends _ = Unit

  record Enters (a b : Driver StdRng) : Type 0 where
    outcomes : b.outcomes ≡ a.outcomes
    storage : b.storage ≡ a.storage
    tracks : Tracks C written b

  Enters-node :
      (d : Driver StdRng) (n : RaftNode StdRng)
      → Tracks C written d
      → Appends [] d.node n
      → Enters d (record d { node = n })
  Enters-node d n t a =
      let same : n.log ≡ d.node.log = a.log ∙ rw (append-nil d.node.log.entries) refl in
      record {
        outcomes = refl;
        storage = refl;
        tracks = record { drained = a.committed ∙ t.drained; waiters = rw same t.waiters };
      }

  -- The new entry stands at the index that the proposal returns, the older ones where they stood.
  ok-Enters :
      (cmd : WriteCommand) (done : Sender) (d : Driver StdRng) (n : RaftNode StdRng)
      → Tracks C written d
      → cmd ≡ written done
      → Appends (additions (proposed (C.encode cmd)) d.node) d.node n
      → Fits n.log
      → Enters d (answer_propose R C (n, ok (Log.last_index n.log)) done d)
  unfolding answer_propose
  ok-Enters cmd done d n t e a f =
      let more =
        Appends-OneMore d.node.log (record { term = d.node.current_term; command = C.encode cmd })
          n.log f a.log in
      record {
        outcomes = refl;
        storage = refl;
        tracks = record {
          drained = a.committed ∙ t.drained;
          waiters =
              push_waiter-Awaits C written n.log (Log.last_index n.log) done d.waiters (omega arith)
                (λ c h. cc (h, more.at_end, e))
                (All-Awaits C written d.node.log n.log d.waiters (omega (arith, more.last_index))
                  (λ i c le h. sym (more.before_end i le) ∙ h) t.waiters);
        };
      }

  propose-Enters :
      (cmd : WriteCommand) (done : Sender) (d : Driver StdRng)
      → Tracks C written d
      → cmd ≡ written done
      → (answer_propose R C (propose (C.encode cmd) d.node) done d).node.role ≡ leader
      → Fits (answer_propose R C (propose (C.encode cmd) d.node) done d).node.log
      → Enters d (answer_propose R C (propose (C.encode cmd) d.node) done d)
  propose-Enters cmd done d t e l f =
      let same = node-answer_propose R C (propose (C.encode cmd) d.node) done d in
      by_leader R C cmd done d (Enters d) l
        λ a. ok-Enters cmd done d (propose (C.encode cmd) d.node).0 t e a (rw (sym same) f)

  on_event-Enters :
      (e : Event R C) (d : Driver StdRng)
      → Tracks C written d
      → Sends e
      → (on_event R C e d).node.role ≡ leader
      → Fits (on_event R C e d).node.log
      → Enters d (on_event R C e d)
  unfolding on_event handle_request react
  on_event-Enters ticked d t s l f = Enters-node d _ t (react-Appends R Run.ticked d.node tt l)
  on_event-Enters (inbound from message) d t s l f =
      Enters-node d _ t (react-Appends R (received from message) d.node tt l)
  on_event-Enters (request (peer from message)) d t s l f =
      Enters-node d _ t (react-Appends R (received from message) d.node tt l)
  on_event-Enters (request (propose_write cmd done)) d t s l f = propose-Enters cmd done d t s l f
  on_event-Enters (request (get_status reply)) d t s l f = record {
    outcomes = refl;
    storage = refl;
    tracks = record { drained = t.drained; waiters = t.waiters };
  }

  round-Tracks :
      (e : Event R C) (d : Driver StdRng)
      → Tracks C written d
      → Sends e
      → Fits (on_event R C e d).node.log
      → Tracks C written (round R C e d)
  unfolding round
  round-Tracks e d t s f = elim (Bool-cases (Node.is_leader (round R C e d).node)) [
    | inl led ↦
        let l = sym (role-process_ready C (on_event R C e d)) ∙ is_leader-role _ led in
        let v = (on_event-Enters e d t s l f).tracks in
        (process_ready-leader C written (on_event R C e d) l v.drained f v.waiters).1
    | inr other ↦ process_ready-other C written (on_event R C e d) other
  ]

  round-Acknowledges :
      (e : Event R C) (d : Driver StdRng)
      → Tracks C written d
      → Sends e
      → Fits (on_event R C e d).node.log
      → Node.is_leader (round R C e d).node ≡ true
      → Acknowledges C written (take_ready (on_event R C e d).node).1.committed d (round R C e d)
  unfolding round
  round-Acknowledges e d t s f led =
      let l = sym (role-process_ready C (on_event R C e d)) ∙ is_leader-role _ led in
      let v = on_event-Enters e d t s l f in
      Acknowledges-same C written _ d (on_event R C e d) _ v.outcomes v.storage
        (process_ready-leader C written (on_event R C e d) l v.tracks.drained f v.tracks.waiters).0

  -- The events bring the writes that are `written` on their channels, and there is always room for
  -- one more index in the log.
  abbrev pub Allowed : List (Event R C) → Driver StdRng → Type 0
  Allowed [] d = Unit
  Allowed (e ∷ es) d = Sends e × Fits (on_event R C e d).node.log × Allowed es (round R C e d)

  loop-Tracks :
      (es : List (Event R C)) (d : Driver StdRng)
      → Tracks C written d
      → Allowed es d
      → Tracks C written (loop R C es d)
  unfolding loop
  loop-Tracks [] d t a = t
  loop-Tracks (e ∷ es) d t (s, f, a) = loop-Tracks es _ (round-Tracks e d t s f) a

  initial_driver-Tracks : (c : Config) → Tracks C written (initial_driver R c)
  unfolding initial_driver Node.new Node.initial_rng
  initial_driver-Tracks c = record { drained = refl; waiters = tt }

  -- A leader acknowledges what it applied. However the driver of any node of a cluster is driven
  -- from its start, with each channel used for one command only and room in the log for one more
  -- index: in every round that leaves the node a leader, the engine changes by the commands that
  -- the node hands over, in order, and whoever is told something is told that the write is
  -- committed, where the very command proposed on that channel is one of those handed over, and
  -- was applied.
  pub loop-Acknowledges :
      (c : Config) (es : List (Event R C)) (e : Event R C)
      → Allowed es (initial_driver R c)
      → Sends e
      → Fits (on_event R C e (loop R C es (initial_driver R c))).node.log
      → Node.is_leader (round R C e (loop R C es (initial_driver R c))).node ≡ true
      → Acknowledges C written
          (take_ready (on_event R C e (loop R C es (initial_driver R c))).node).1.committed
          (loop R C es (initial_driver R c))
          (round R C e (loop R C es (initial_driver R c)))
  loop-Acknowledges c es e a s f l =
      round-Acknowledges e _ (loop-Tracks es _ (initial_driver-Tracks c) a) s f l
