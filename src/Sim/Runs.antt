-- ===== src/Sim/Runs.antt =====
-- src/sim.rs: the clusters that a simulation reaches by steps, proposals, crashes and partitions.
use ferrium.Common.{
  ℕ, Option, some, List, length, get_elem?, get_elem?-eq-some, get_elem?-eq-none, Bool, true, false,
  ◌≡◌, refl, sym, ◌∙◌, arith, dec_lt, if_intro, ==_iff, if◌then◌else◌, ◌==◌,
}
use ferrium.Raft.Node.{Rand, RaftNode}
use ferrium.Raft.Node.Drive
use ferrium.Raft.Run.{Event, proposed, react, run, run_induction}
use ferrium.Storage.Apply.{WriteCommand, Codec}
use ferrium.Sim.{◌>>=◌, modify_at, SimCluster, advance, new}
use ferrium.Sim.Control.{propose, crash, restart, disconnect, reconnect}
use ferrium.Sim.Panics.{some-ne-none, Keeps, of_Keeps, Keeps-Gives, Keeps-bind, get_elem?-Keeps}
use ferrium.Sim.Evolution.{Modified, modify_at-Keeps, Evolves}
use ferrium.Sim.Steps.{IsCluster, Stepped, advance-Stepped}
use ferrium.Sim.Start.{new-IsCluster}

IsCluster-nodes :
    {G : Type 0} (c : SimCluster G) (nodes' : List (RaftNode G))
    → length nodes' ≡ length c.nodes
    → IsCluster c
    → IsCluster (record c { nodes = nodes' })
IsCluster-nodes c nodes' e v = record {
  stores_size = v.stores_size ∙ sym e;
  alive_size = v.alive_size ∙ sym e;
  connected_size = v.connected_size ∙ sym e;
  ids_size = v.ids_size ∙ sym e;
  known = v.known;
  in_range = λ id j k. rw e (v.in_range id j k);
}

IsCluster-flags :
    {G : Type 0} (c : SimCluster G) (alive' connected' : List Bool)
    → length alive' ≡ length c.alive
    → length connected' ≡ length c.connected
    → IsCluster c
    → IsCluster (record c { alive = alive'; connected = connected' })
IsCluster-flags c alive' connected' e d v = record {
  stores_size = v.stores_size;
  alive_size = e ∙ v.alive_size;
  connected_size = d ∙ v.connected_size;
  ids_size = v.ids_size;
  known = v.known;
  in_range = v.in_range;
}

-- What a test does to a cluster.
pub data Op : Type 0 where
  advanced : Op
  proposes : (idx : ℕ) → (cmd : WriteCommand) → Op
  crashes restarts disconnects reconnects : (idx : ℕ) → Op

module _ (R : Rand) (C : Codec) where
  open R use {StdRng}

  unfoldable pub perform : Op → SimCluster StdRng → Option (SimCluster StdRng)
  perform advanced c = advance R C c
  perform (proposes idx cmd) c = do (c', index) ← propose C idx cmd c; some c'
  perform (crashes idx) c = crash idx c
  perform (restarts idx) c = restart idx c
  perform (disconnects idx) c = disconnect idx c
  perform (reconnects idx) c = reconnect idx c

  pub data Reach (n seed : ℕ) : SimCluster StdRng → Type 0 where
    start : Reach n seed (new R n seed)
    next :
        {c c' : SimCluster StdRng}
        → Reach n seed c
        → (op : Op) → perform op c ≡ some c'
        → Reach n seed c'

  -- Every node of the cluster.
  abbrev pub AllNodes : (RaftNode StdRng → Type 0) → List (RaftNode StdRng) → Type 0
  AllNodes P ns = (i : ℕ) (n : RaftNode StdRng) → get_elem? ns i ≡ some n → P n

  module _ (P : RaftNode StdRng → Type 0)
      (keep : (e : Event) (n : RaftNode StdRng) → P n → P (react R e n)) where
    AllNodes-Evolves :
        (alive connected : List Bool) (ns ns' : List (RaftNode StdRng))
        → Evolves R alive connected ns ns'
        → AllNodes P ns
        → AllNodes P ns'
    AllNodes-Evolves alive connected ns ns' m h i n' e = elim (dec_lt i (length ns)) [
      | yes l ↦
          let (n, at_i) = get_elem?-eq-some ns i l in
          let moved : some (run R (m.events i) n) ≡ some n' = sym (m.moves i n at_i) ∙ e in
          let same : run R (m.events i) n ≡ n' = cc in
          rw (← same) (run_induction R P keep (m.events i) n (h i n at_i))
      | no beyond ↦
          let gone = get_elem?-eq-none ns' i (omega (arith, m.size)) in
          absurd (some-ne-none (sym e ∙ gone))
    ]

    AllNodes-Modified :
        (j : ℕ) (f : RaftNode StdRng → RaftNode StdRng) (ns ns' : List (RaftNode StdRng))
        → ((n : RaftNode StdRng) → get_elem? ns j ≡ some n → P n → P (f n))
        → Modified j f ns ns'
        → AllNodes P ns
        → AllNodes P ns'
    AllNodes-Modified j f ns ns' g m h i n' e = elim (dec_lt i (length ns)) [
      | yes l ↦
          let (n, at_i) = get_elem?-eq-some ns i l in
          let moved : some (if i == j then f n else n) ≡ some n' = sym (m.moved i n at_i) ∙ e in
          let same : (if i == j then f n else n) ≡ n' = cc in
          rw (← same) (
            if_intro P (i == j) (f n) n (λ b. g n (rw ((==_iff i j).0 b) at at_i) (h i n at_i))
              (λ _. h i n at_i))
      | no beyond ↦
          let gone = get_elem?-eq-none ns' i (omega (arith, m.size)) in
          absurd (some-ne-none (sym e ∙ gone))
    ]

    -- A well-formed cluster of nodes that satisfy `P`.
    pub record Good (c : SimCluster StdRng) : Type 0 where
      pub cluster : IsCluster c
      pub nodes : AllNodes P c.nodes

    -- The flags of one node are set.
    alive-Good :
        (idx : ℕ) (b : Bool) (c : SimCluster StdRng)
        → Good c
        → Keeps Good
            (do alive' ← modify_at idx (λ _. b) c.alive; some (record c { alive = alive' }))
    alive-Good idx b c g =
        Keeps-bind (Modified idx (λ _. b) c.alive) Good (modify_at idx (λ _. b) c.alive) _
          (modify_at-Keeps idx (λ _. b) c.alive)
          λ alive' m. record {
            cluster = IsCluster-flags c alive' c.connected m.size refl g.cluster;
            nodes = g.nodes;
          }

    connected-Good :
        (idx : ℕ) (b : Bool) (c : SimCluster StdRng)
        → Good c
        → Keeps Good (do
          connected' ← modify_at idx (λ _. b) c.connected
          some (record c { connected = connected' }))
    connected-Good idx b c g =
        Keeps-bind (Modified idx (λ _. b) c.connected) Good (modify_at idx (λ _. b) c.connected) _
          (modify_at-Keeps idx (λ _. b) c.connected)
          λ connected' m. record {
            cluster = IsCluster-flags c c.alive connected' refl m.size g.cluster;
            nodes = g.nodes;
          }

    propose-Good :
        (idx : ℕ) (cmd : WriteCommand) (c : SimCluster StdRng)
        → Good c
        → Keeps (λ r. Good r.0) (propose C idx cmd c)
    unfolding propose react
    propose-Good idx cmd c g =
        Keeps-bind (λ n. get_elem? c.nodes idx ≡ some n) (λ r. Good r.0) (get_elem? c.nodes idx) _
          (get_elem?-Keeps c.nodes idx)
          λ n at_idx.
            let f : RaftNode StdRng → RaftNode StdRng = λ _. (Drive.propose (C.encode cmd) n).0 in
            Keeps-bind (Modified idx f c.nodes) (λ r. Good r.0) (modify_at idx f c.nodes) _
              (modify_at-Keeps idx f c.nodes)
              λ nodes' m. record {
                cluster = IsCluster-nodes c nodes' m.size g.cluster;
                nodes =
                    AllNodes-Modified idx f c.nodes nodes'
                      (λ n' at_idx' h. keep (proposed (C.encode cmd)) n (g.nodes idx n at_idx)) m
                      g.nodes;
              }

    perform-Good : (op : Op) (c : SimCluster StdRng) → Good c → Keeps Good (perform op c)
    unfolding perform crash restart disconnect reconnect
    perform-Good advanced c g =
        Keeps-Gives (Stepped R C c g.cluster) Good (advance R C c) (advance-Stepped R C c g.cluster)
          λ c' t. record {
            cluster = t.cluster;
            nodes = AllNodes-Evolves c.alive c.connected c.nodes c'.nodes t.moves g.nodes;
          }
    perform-Good (proposes idx cmd) c g =
        Keeps-bind (λ r. Good r.0) Good (propose C idx cmd c) _ (propose-Good idx cmd c g) λ r h. h
    perform-Good (crashes idx) c g = alive-Good idx false c g
    perform-Good (restarts idx) c g = alive-Good idx true c g
    perform-Good (disconnects idx) c g = connected-Good idx false c g
    perform-Good (reconnects idx) c g = connected-Good idx true c g

    pub Reach-Good :
        (n seed : ℕ) (c : SimCluster StdRng)
        → AllNodes P (new R n seed).nodes
        → Reach n seed c
        → Good c
    Reach-Good n seed c h start = record { cluster = new-IsCluster R n seed; nodes = h }
    Reach-Good n seed c h (next {c = b} r op e) =
        of_Keeps Good (perform op b) c (perform-Good op b (Reach-Good n seed b h r)) e
