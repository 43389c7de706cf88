-- ===== src/Sim/Safety.antt =====
-- src/sim.rs: what holds in every simulation, and what crashes and partitions do.
use ferrium.Common.{All, ℕ, zero, suc, some, List, get_elem?, false, ◌≡◌, refl, ap, ◌∙◌}
use ferrium.Raft.Node.{Rand, RaftNode}
use ferrium.Raft.Run.{Event, run}
use ferrium.Storage.Apply.{Codec}
use ferrium.Sim
use ferrium.Sim.{◌>>=◌, modify_at, SimCluster, advance, new, names, new_nodes, others, sim_config}
use ferrium.Sim.Panics.{some-Gives, of_Keeps, Keeps-Gives}
use ferrium.Sim.Evolution.{IsLocal}
use ferrium.Sim.Steps.{IsCluster, Stepped, advance-Stepped}
use ferrium.Sim.Runs.{advanced, Reach, next, perform, Reach-Good}

module _ (R : Rand) (C : Codec) where
  open R use {StdRng}

  -- No step of a reached cluster panics.
  reach-advance :
      (n seed : ℕ) (c : SimCluster StdRng)
      → Reach R C n seed c
      → (c' : SimCluster StdRng) × (advance R C c ≡ some c') × Reach R C n seed c'
  unfolding perform
  reach-advance n seed c r =
      let good = Reach-Good R C (λ m. Unit {0}) (λ e m h. tt) n seed c (λ i m e. tt) r in
      let (c', e) =
        some-Gives (Stepped R C c good.cluster) (advance R C c)
          (advance-Stepped R C c good.cluster) in
      (c', e, next r advanced e)

  -- In a cluster reached from a new one by steps, proposals, crashes, restarts and partitions no
  -- step panics: any number of further steps gives a cluster, which is again reached.
  pub reach-run :
      (n seed k : ℕ) (c : SimCluster StdRng)
      → Reach R C n seed c
      → (c' : SimCluster StdRng) × (Sim.run R C k c ≡ some c') × Reach R C n seed c'
  unfolding Sim.run
  reach-run n seed zero c r = (c, refl, r)
  reach-run n seed (suc k) c r =
      let (b, e, r') = reach-advance n seed c r in
      let (c', e', r'') = reach-run n seed k b r' in (c', ap (λ m. m >>= Sim.run R C k) e ∙ e', r'')

module _ (R : Rand) (C : Codec) (c c' : SimCluster R.StdRng) (v : IsCluster c) where
  open R use {StdRng}

  -- After a step of a well-formed cluster a node that is disconnected has seen ticks and drains
  -- only, and no message.
  pub advance-cut_off :
      (i : ℕ) (n : RaftNode StdRng)
      → advance R C c ≡ some c'
      → get_elem? c.nodes i ≡ some n
      → get_elem? c.connected i ≡ some false
      → (es : List Event) × All IsLocal es × (get_elem? c'.nodes i ≡ some (run R es n))
  advance-cut_off i n e at_i cut =
      let t =
        of_Keeps (Stepped R C c v) (advance R C c) c'
          (Keeps-Gives _ _ (advance R C c) (advance-Stepped R C c v) (λ d h. h)) e in
      (t.moves.events i, t.moves.cut_off i cut, t.moves.moves i n at_i)

  -- A step of a well-formed cluster leaves a node that has crashed as it is: it sees no tick, no
  -- message and no drain.
  pub advance-crashed :
      (i : ℕ) (n : RaftNode StdRng)
      → advance R C c ≡ some c'
      → get_elem? c.nodes i ≡ some n
      → get_elem? c.alive i ≡ some false
      → get_elem? c'.nodes i ≡ some n
  unfolding run
  advance-crashed i n e at_i down =
      let t =
        of_Keeps (Stepped R C c v) (advance R C c) c'
          (Keeps-Gives _ _ (advance R C c) (advance-Stepped R C c v) (λ d h. h)) e in
      t.moves.moves i n at_i ∙ ap (λ es. some (run R es n)) (t.moves.crashed i down)
