-- ===== src/Server/Handover.antt =====
-- src/server.rs, process_ready: what a drain does to the waiters of any node of a cluster.
use ferrium.Common.{
  ◌≡◌, refl, ap, true, ◌∙◌, arith, true, false, if_intro, List, [], ◌∷◌, ◌++◌, All,
}
use mathlib.Core.Path.{subst}
use ferrium.Raft.Log.Index.{Fits}
use ferrium.Raft.State.{leader}
use ferrium.Raft.Node
use ferrium.Raft.Node.{Rand, RaftNode, Committed, command, snapshot}
use ferrium.Raft.Node.Drive.{take_ready}
use ferrium.Storage.Apply.{WriteCommand, Codec}
use ferrium.Server.{
  Driver, Sender, ProposeOutcome, resolve, update_metrics, drop_waiters, apply_entry, apply_all,
  process_ready, send_messages,
}
use ferrium.Raft.Election.{apply_committed-Same}
use ferrium.Raft.Handed.{take_ready-Drains}
use ferrium.Server.Single.{drop_waiters-leader}
use ferrium.Server.Promises.{
  replay, Awaits, All-Awaits, WasApplied, apply_all-Hands, storage-apply_all,
}

pub is_leader-role : {G : Type 0} (n : RaftNode G) → Node.is_leader n ≡ true → n.role ≡ leader
unfolding Node.is_leader
is_leader-role n h = ground arith

module _ {G : Type 0} where
  -- The driver with its node drained.
  abbrev pub emptied : Driver G → Driver G
  emptied d = record d {
    node = (take_ready d.node).0;
    to_peers = d.to_peers ++ send_messages d.storage (take_ready d.node).1.messages;
  }

module _ (C : Codec) {G : Type 0} where
  node-apply_all : (cs : List Committed) (d : Driver G) → (apply_all C cs d).node ≡ d.node
  unfolding apply_all apply_entry resolve
  node-apply_all [] d = refl
  node-apply_all (command i c ∷ cs) d = node-apply_all cs (apply_entry C (command i c) d)
  node-apply_all (snapshot entries ∷ cs) d = node-apply_all cs (apply_entry C (snapshot entries) d)

  pub node-process_ready : (d : Driver G) → (process_ready C d).node ≡ (take_ready d.node).0
  unfolding process_ready update_metrics drop_waiters
  node-process_ready d =
      let a = apply_all C (take_ready d.node).1.committed (emptied d) in
      if_intro (λ (x : Driver G). x.node ≡ (take_ready d.node).0) (Node.is_leader a.node) _ _
        (λ _. node-apply_all (take_ready d.node).1.committed (emptied d))
        λ _. node-apply_all (take_ready d.node).1.committed (emptied d)

  pub role-process_ready : (d : Driver G) → (process_ready C d).node.role ≡ d.node.role
  unfolding take_ready
  role-process_ready d =
      ap (λ (n : RaftNode G). n.role) (node-process_ready d) ∙ (apply_committed-Same d.node).role

  waiters-drop_waiters :
      (d : Driver G) → Node.is_leader (drop_waiters d).node ≡ false → (drop_waiters d).waiters ≡ []
  unfolding drop_waiters
  waiters-drop_waiters d =
      if_intro (λ (x : Driver G). Node.is_leader x.node ≡ false → x.waiters ≡ [])
        (Node.is_leader d.node) _ _ (λ leads h. cc) λ _ _. refl

  pub committed-process_ready : (d : Driver G) → (process_ready C d).node.committed ≡ []
  unfolding take_ready
  committed-process_ready d = ap (λ (n : RaftNode G). n.committed) (node-process_ready d)

  pub waiters-process_ready :
      (d : Driver G)
      → Node.is_leader (process_ready C d).node ≡ false
      → (process_ready C d).waiters ≡ []
  unfolding process_ready
  waiters-process_ready d h = waiters-drop_waiters _ h

-- A driver between two rounds.
module _ (C : Codec) (written : Sender → WriteCommand) {G : Type 0} where
  pub record Tracks (d : Driver G) : Type 0 where
    pub drained : d.node.committed ≡ []
    pub waiters : All (Awaits C written d.node.log) d.waiters

  -- A round from `a` to `b` that hands over `handed`: the engine is what the commands make of it,
  -- and whoever has been told something in it, was told that the own command is among them.
  pub record Acknowledges (handed : List Committed) (a b : Driver G) : Type 0 where
    pub news : List (Sender × ProposeOutcome)
    pub outcomes : b.outcomes ≡ a.outcomes ++ news
    pub storage : b.storage ≡ replay C handed a.storage
    pub told : All (WasApplied C written a.storage b.storage handed) news

  pub Acknowledges-same :
      (cs : List Committed) (a b d : Driver G)
      → b.outcomes ≡ a.outcomes
      → b.storage ≡ a.storage
      → Acknowledges cs b d
      → Acknowledges cs a d
  Acknowledges-same cs a b d o e k = record {
    news = k.news;
    outcomes = k.outcomes ∙ ap (λ x. x ++ k.news) o;
    storage = k.storage ∙ ap (replay C cs) e;
    told = subst (λ x. All (WasApplied C written x d.storage cs) k.news) e k.told;
  }

  pub process_ready-leader :
      (d : Driver G)
      → d.node.role ≡ leader
      → d.node.committed ≡ []
      → Fits d.node.log
      → All (Awaits C written d.node.log) d.waiters
      → Acknowledges (take_ready d.node).1.committed d (process_ready C d)
        × Tracks (process_ready C d)
  unfolding process_ready update_metrics
  process_ready-leader d l e f h =
      let cs = (take_ready d.node).1.committed in
      let n = take_ready-Drains d.node e f in
      let a = apply_all C cs (emptied d) in
      let stored = storage-apply_all C written cs (emptied d) in
      let r =
        apply_all-Hands C written d.node.log d.storage a.storage [] cs (emptied d) n.logged h
          stored in
      let leads : a.node.role ≡ leader = ap (λ (k : RaftNode G). k.role) r.node ∙ (n.role ∙ l) in
      let log : a.node.log ≡ (take_ready d.node).0.log = ap (λ (k : RaftNode G). k.log) r.node in
      rw (drop_waiters-leader (update_metrics a) leads) (
        record { news = r.news; outcomes = r.outcomes; storage = stored; told = r.told },
        record {
          drained = ap (λ (k : RaftNode G). k.committed) r.node ∙ n.committed;
          waiters = rw log (
              All-Awaits C written d.node.log (take_ready d.node).0.log a.waiters
                (omega (arith, n.last_index)) (λ i c le at_i. n.kept i c at_i) r.waiters);
        },
      )

  pub process_ready-other :
      (d : Driver G) → Node.is_leader (process_ready C d).node ≡ false → Tracks (process_ready C d)
  process_ready-other d h = record {
    drained = committed-process_ready C d;
    waiters = rw (waiters-process_ready C d h) tt;
  }
