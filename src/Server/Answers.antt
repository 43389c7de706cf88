-- ===== src/Server/Answers.antt =====
-- src/server.rs: the channels of client writes, waiting and answered.
use ferrium.Common.{
  ℕ, ◌+◌, false, if◌then◌else◌, if_intro, ◌==◌, Option, List, [], ◌∷◌, ◌++◌, ◌≡◌, refl, ◌∙◌, arith,
}
use ferrium.Raft.Message.{NodeId}
use ferrium.Raft.Node
use ferrium.Raft.Node.{Rand, RaftNode, Committed, command, snapshot}
use ferrium.Raft.Node.Drive.{Proposed, ok, not_leader, take_ready, propose}
use ferrium.Storage.Apply.{Codec}
use ferrium.Server.{
  Sender, ProposeOutcome, refused, committed, Waiters, Driver, push_waiter, remove_waiters,
  send_all, resolve, update_metrics, fail_waiters, drop_waiters, apply_entry, apply_all,
  process_ready, answer_propose, handle_request, peer, propose_write, get_status, Event, ticked,
  inbound, request, on_event, round,
}

-- How many times a channel is in a list, waits in the map, has been answered.
unfoldable pub times : Sender → List Sender → ℕ
times k [] = 0
times k (w ∷ ws) = (if w == k then 1 else 0) + times k ws

unfoldable pub waiting : Sender → Waiters → ℕ
waiting k [] = 0
waiting k ((i, ws) ∷ rest) = times k ws + waiting k rest

unfoldable pub answered : Sender → List (Sender × ProposeOutcome) → ℕ
answered k [] = 0
answered k ((w, o) ∷ rest) = (if w == k then 1 else 0) + answered k rest

times-append : (k : Sender) (xs ys : List Sender) → times k (xs ++ ys) ≡ times k xs + times k ys
unfolding times
times-append k [] ys = omega arith
times-append k (x ∷ xs) ys = omega (arith, times-append k xs ys)

answered-append :
    (k : Sender) (xs ys : List (Sender × ProposeOutcome))
    → answered k (xs ++ ys) ≡ answered k xs + answered k ys
unfolding answered
answered-append k [] ys = omega arith
answered-append k ((w, o) ∷ xs) ys = omega (arith, answered-append k xs ys)

answered-send_all :
    (k : Sender) (ws : List Sender) (o : ProposeOutcome) → answered k (send_all ws o) ≡ times k ws
unfolding answered send_all times
answered-send_all k [] o = refl
answered-send_all k (w ∷ ws) o = omega (arith, answered-send_all k ws o)

waiting-push_waiter :
    (k : Sender) (index : ℕ) (done : Sender) (m : Waiters)
    → waiting k (push_waiter index done m) ≡ (if done == k then 1 else 0) + waiting k m
unfolding waiting push_waiter times
waiting-push_waiter k index done [] = omega arith
waiting-push_waiter k index done ((i, ws) ∷ rest) =
    ground (arith, waiting-push_waiter k index done rest, times-append k ws (done ∷ []))

waiting-remove_waiters :
    (k : Sender) (index : ℕ) (m : Waiters)
    → times k (remove_waiters index m).0 + waiting k (remove_waiters index m).1 ≡ waiting k m
unfolding waiting remove_waiters times
waiting-remove_waiters k index [] = refl
waiting-remove_waiters k index ((i, ws) ∷ rest) =
    ground (arith, waiting-remove_waiters k index rest)

answered-fail_waiters :
    (k : Sender) (to : Option NodeId) (m : Waiters) → answered k (fail_waiters to m) ≡ waiting k m
unfolding waiting fail_waiters answered
answered-fail_waiters k to [] = refl
answered-fail_waiters k to ((i, ws) ∷ rest) = omega (
  arith,
  answered-fail_waiters k to rest,
  answered-send_all k ws (refused to),
  answered-append k (send_all ws (refused to)) (fail_waiters to rest),
)

module _ {G : Type 0} where
  -- The proposals of a channel that wait or have been answered.
  unfoldable pub held : Sender → Driver G → ℕ
  held k d = waiting k d.waiters + answered k d.outcomes

  held-resolve :
      (k : Sender) (index : ℕ) (o : ProposeOutcome) (d : Driver G)
      → held k (resolve index o d) ≡ held k d
  unfolding held resolve
  held-resolve k index o d = omega (
    arith,
    waiting-remove_waiters k index d.waiters,
    answered-append k d.outcomes (send_all (remove_waiters index d.waiters).0 o),
    answered-send_all k (remove_waiters index d.waiters).0 o,
  )

  held-drop_waiters : (k : Sender) (d : Driver G) → held k (drop_waiters d) ≡ held k d
  unfolding held drop_waiters waiting
  held-drop_waiters k d =
      if_intro (λ d'. held k d' ≡ held k d) (Node.is_leader d.node) _ _ (λ _. refl)
        λ _. omega (
          arith,
          answered-fail_waiters k d.node.leader_id d.waiters,
          answered-append k d.outcomes (fail_waiters d.node.leader_id d.waiters),
        )

  held-update_metrics : (k : Sender) (d : Driver G) → held k (update_metrics d) ≡ held k d
  unfolding held update_metrics
  held-update_metrics k d = refl

module _ {G : Type 0} (C : Codec) where
  held-apply_entry :
      (k : Sender) (c : Committed) (d : Driver G) → held k (apply_entry C c d) ≡ held k d
  unfolding apply_entry held
  held-apply_entry k (command index c) d = held-resolve k index committed _
  held-apply_entry k (snapshot entries) d = refl

  held-apply_all :
      (k : Sender) (cs : List Committed) (d : Driver G) → held k (apply_all C cs d) ≡ held k d
  unfolding apply_all
  held-apply_all k [] d = refl
  held-apply_all k (c ∷ cs) d = held-apply_all k cs (apply_entry C c d) ∙ held-apply_entry k c d

  held-process_ready : (k : Sender) (d : Driver G) → held k (process_ready C d) ≡ held k d
  unfolding process_ready held
  held-process_ready k d =
      held-drop_waiters k _
      ∙ (held-update_metrics k _ ∙ held-apply_all k (take_ready d.node).1.committed _)

module _ (R : Rand) (C : Codec) where
  open R use {StdRng}

  -- The proposals of a channel that an event brings.
  unfoldable pub asks : Sender → Event R C → ℕ
  asks k ticked = 0
  asks k (inbound from message) = 0
  asks k (request (peer from message)) = 0
  asks k (request (propose_write cmd done)) = if done == k then 1 else 0
  asks k (request (get_status reply)) = 0

  held-answer_propose :
      (k : Sender) (r : RaftNode StdRng × Proposed) (done : Sender) (d : Driver StdRng)
      → held k (answer_propose R C r done d) ≡ (if done == k then 1 else 0) + held k d
  unfolding held answer_propose answered
  held-answer_propose k (n, ok index) done d =
      omega (arith, waiting-push_waiter k index done d.waiters)
  held-answer_propose k (n, not_leader to) done d =
      omega (arith, answered-append k d.outcomes ((done, refused to) ∷ []))

  held-on_event :
      (k : Sender) (e : Event R C) (d : Driver StdRng)
      → held k (on_event R C e d) ≡ asks k e + held k d
  unfolding held on_event handle_request asks
  held-on_event k ticked d = omega arith
  held-on_event k (inbound from message) d = omega arith
  held-on_event k (request (peer from message)) d = omega arith
  held-on_event k (request (propose_write cmd done)) d =
      held-answer_propose k (propose (C.encode cmd) d.node) done d
  held-on_event k (request (get_status reply)) d = omega arith

  -- A round of the driver loop keeps, for each channel, the number of its writes that wait or are
  -- answered, and adds one for a write that the round brings in: no write is dropped and none is
  -- answered twice.
  pub held-round :
      (k : Sender) (e : Event R C) (d : Driver StdRng)
      → held k (round R C e d) ≡ asks k e + held k d
  unfolding round
  held-round k e d = held-process_ready C k (on_event R C e d) ∙ held-on_event k e d

  waiting-drop_waiters :
      (k : Sender) (d : Driver StdRng)
      → Node.is_leader (drop_waiters d).node ≡ false
      → waiting k (drop_waiters d).waiters ≡ 0
  unfolding drop_waiters waiting
  waiting-drop_waiters k d =
      if_intro {A = Driver StdRng} (λ d'. Node.is_leader d'.node ≡ false → waiting k d'.waiters ≡ 0)
        (Node.is_leader d.node) _ _ (λ leads h. cc) λ _ _. refl

  -- After a round that ends with a node that does not lead, every write of a channel has been
  -- answered, those from earlier rounds and one that the round brought in.
  pub answered-round :
      (k : Sender) (e : Event R C) (d : Driver StdRng)
      → Node.is_leader (round R C e d).node ≡ false
      → answered k (round R C e d).outcomes ≡ asks k e + held k d
  unfolding held round process_ready
  answered-round k e d h = omega (arith, held-round k e d, waiting-drop_waiters k _ h)
