-- ===== src/Sim/Control.antt =====
-- src/sim.rs: what tests do to a cluster and read from it.
use ferrium.Common.{
  ℕ, suc, Bool, true, false, if◌then◌else◌, ◌&&◌, ◌==◌, max, Option, none, some, List, [], ◌∷◌,
  Bytes, length, get_elem?,
}
use ferrium.Raft.Node
use ferrium.Raft.Node.{Rand, RaftNode}
use ferrium.Raft.Node.Drive.{Proposed, ok, not_leader}
use ferrium.Raft.Node.Drive
use ferrium.Storage.Engine
use ferrium.Storage.Apply.{WriteCommand, Codec}
use ferrium.Sim.{SimCluster, modify_at, ◌>>=◌}

abbrev pub only : List ℕ → Option ℕ
only (i ∷ []) = some i
only _ = none

abbrev pub accepted : Proposed → Option ℕ
accepted (ok index) = some index
accepted (not_leader to) = none

module _ {G : Type 0} where
  -- The highest term of the live nodes.
  unfoldable pub max_term : List Bool → List (RaftNode G) → Option ℕ
  max_term (true ∷ alive) (n ∷ nodes) = elim (max_term alive nodes) [
    | none ↦ some n.current_term
    | some t ↦ some (max n.current_term t)
  ]
  max_term (false ∷ alive) (n ∷ nodes) = max_term alive nodes
  max_term _ _ = none

  -- The indices, from `i` on, of the live leaders of the term.
  unfoldable pub leaders : ℕ → ℕ → List Bool → List (RaftNode G) → List ℕ
  leaders term i (up ∷ alive) (n ∷ nodes) =
      let more = leaders term (suc i) alive nodes in
      if up && Node.is_leader n && n.current_term == term then i ∷ more else more
  leaders term i _ _ = []

  -- `SimCluster::leader`
  unfoldable pub unique_leader : SimCluster G → Option ℕ
  unique_leader c = do term ← max_term c.alive c.nodes; only (leaders term 0 c.alive c.nodes)

  -- The cluster, and the assigned index.
  unfoldable pub propose :
      Codec → ℕ → WriteCommand → SimCluster G → Option (SimCluster G × Option ℕ)
  propose C idx cmd c = do
    n ← get_elem? c.nodes idx
    nodes' ← modify_at idx (λ _. (Drive.propose (C.encode cmd) n).0) c.nodes
    some (record c { nodes = nodes' }, accepted (Drive.propose (C.encode cmd) n).1)

  unfoldable pub get : ℕ → Bytes → SimCluster G → Option (Option Bytes)
  get idx key c = do e ← get_elem? c.stores idx; some (Engine.get e key)

  unfoldable pub commit_index : ℕ → SimCluster G → Option ℕ
  commit_index idx c = do n ← get_elem? c.nodes idx; some n.commit_index

  unfoldable pub term : ℕ → SimCluster G → Option ℕ
  term idx c = do n ← get_elem? c.nodes idx; some n.current_term

  unfoldable pub size : SimCluster G → ℕ
  size c = length c.nodes

  unfoldable pub crash : ℕ → SimCluster G → Option (SimCluster G)
  crash idx c = do alive' ← modify_at idx (λ _. false) c.alive; some (record c { alive = alive' })

  unfoldable pub restart : ℕ → SimCluster G → Option (SimCluster G)
  restart idx c = do alive' ← modify_at idx (λ _. true) c.alive; some (record c { alive = alive' })

  unfoldable pub disconnect : ℕ → SimCluster G → Option (SimCluster G)
  disconnect idx c = do
    connected' ← modify_at idx (λ _. false) c.connected
    some (record c { connected = connected' })

  unfoldable pub reconnect : ℕ → SimCluster G → Option (SimCluster G)
  reconnect idx c = do
    connected' ← modify_at idx (λ _. true) c.connected
    some (record c { connected = connected' })
