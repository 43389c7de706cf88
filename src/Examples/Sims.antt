-- ===== src/Examples/Sims.antt =====
-- The theorems on simulations at concrete inputs.
use ferrium.Common.{
  get_elem?, arith, ◌≤◌, ℕ, true, false, Bool, some, List, [], ◌∷◌, bytes, insert, str_eq, All, ◌≡◌,
  refl,
}
use ferrium.Protocol.Decimal.{decimal, digits}
use ferrium.Raft.Log
use ferrium.Raft.State.{leader}
use ferrium.Raft.State.{count, record_vote, clear, reset}
use ferrium.Raft.Node
use ferrium.Raft.Node.{RaftNode, majority}
use ferrium.Raft.Node.Roles.{become_candidate, become_leader}
use ferrium.Raft.Node.Replicate.{
  apply_committed, maybe_compact, apply_loop, advance_commit, broadcast_append, broadcast_loop,
  commit_scan,
}
use ferrium.Raft.Node.Drive.{take_ready, tick}
use ferrium.Storage.Engine
use ferrium.Raft.Message.{request_vote}
use ferrium.Raft.Timers.{IsTimed, run-IsTimed}
use ferrium.Raft.Run.{Event, ticked, received, run}
use ferrium.Sim
use ferrium.Sim.{
  sim_config, SimCluster, advance, new, new_nodes, names, number, others, replicate, modify_at,
  tick_loop, drain_node, drain_loop, deliver_loop, post, apply_stores,
}
use ferrium.Sim.Control.{crash}
use ferrium.Sim.Evolution.{IsLocal}
use ferrium.Sim.Steps.{IsCluster}
use ferrium.Sim.Start.{new-IsCluster}
use ferrium.Sim.Runs.{perform, Reach, start, next, crashes, advanced}
use ferrium.Sim.Safety.{reach-run, advance-cut_off, advance-crashed}
use ferrium.Examples.Nodes.{fixed, node1, request}
use ferrium.Examples.Driver.{lengths}

abbrev three : SimCluster ℕ
three = new fixed 3 42

abbrev one_down : SimCluster ℕ
one_down = record three { alive = true ∷ false ∷ true ∷ [] }

one_down-Reach : Reach fixed lengths 3 42 one_down
unfolding new replicate perform crash modify_at
one_down-Reach = next start (crashes 1) refl

reach-run_example :
    (c' : SimCluster ℕ) × (Sim.run fixed lengths 30 one_down ≡ some c')
    × Reach fixed lengths 3 42 c'
reach-run_example = reach-run fixed lengths 3 42 30 one_down one_down-Reach

-- The only node of a cluster, before its election timeout of five ticks.
abbrev pub node0 : ℕ → RaftNode ℕ
node0 elapsed = record node1 {
  id = bytes "n0";
  peers = [];
  config = sim_config 42;
  rng = 42;
  current_term = 0;
  log = Log.new;
  commit_index = 0;
  election_elapsed = elapsed;
}

abbrev of_node : ℕ → RaftNode ℕ → SimCluster ℕ
of_node steps n = record {
  nodes = n ∷ [];
  stores = Engine.new ∷ [];
  alive = true ∷ [];
  connected = true ∷ [];
  ids = bytes "n0" ∷ [];
  id_to_idx = (bytes "n0", 0) ∷ [];
  step = steps;
}

abbrev lone : ℕ → SimCluster ℕ
lone steps = of_node steps (node0 steps)

new-lone : new fixed 1 42 ≡ lone 0
unfolding new new_nodes replicate names number Node.new decimal digits insert others str_eq
new-lone = refl

lone-0 : perform fixed lengths advanced (lone 0) ≡ some (lone 1)
unfolding perform advance tick_loop modify_at drain_loop drain_node deliver_loop post apply_stores
    take_ready apply_committed maybe_compact apply_loop tick
lone-0 = refl

lone-1 : perform fixed lengths advanced (lone 1) ≡ some (lone 2)
unfolding perform advance tick_loop modify_at drain_loop drain_node deliver_loop post apply_stores
    take_ready apply_committed maybe_compact apply_loop tick
lone-1 = refl

lone-2 : perform fixed lengths advanced (lone 2) ≡ some (lone 3)
unfolding perform advance tick_loop modify_at drain_loop drain_node deliver_loop post apply_stores
    take_ready apply_committed maybe_compact apply_loop tick
lone-2 = refl

lone-3 : perform fixed lengths advanced (lone 3) ≡ some (lone 4)
unfolding perform advance tick_loop modify_at drain_loop drain_node deliver_loop post apply_stores
    take_ready apply_committed maybe_compact apply_loop tick
lone-3 = refl

-- At the fifth step it elects itself.
abbrev pub elected : RaftNode ℕ
elected = record (node0 0) {
  role = leader;
  current_term = 1;
  voted_for = some (bytes "n0");
  leader_id = some (bytes "n0");
  votes = record { granted = bytes "n0" ∷ [] };
}

lone-4 : perform fixed lengths advanced (lone 4) ≡ some (of_node 5 elected)
unfolding perform advance tick_loop modify_at drain_loop drain_node deliver_loop post apply_stores
    take_ready apply_committed maybe_compact apply_loop tick become_candidate majority count
    record_vote clear become_leader advance_commit broadcast_append broadcast_loop commit_scan
    Log.last_index reset
lone-4 = refl

lone-Reach : Reach fixed lengths 1 42 (lone 0)
lone-Reach = rw (← new-lone) start

elected-Reach : Reach fixed lengths 1 42 (of_node 5 elected)
elected-Reach =
    next
      (next (next (next (next lone-Reach advanced lone-0) advanced lone-1) advanced lone-2) advanced
        lone-3)
      advanced lone-4

-- A node that is down, or cut off, in a cluster of one.
abbrev down : SimCluster ℕ
down = record (lone 4) { alive = false ∷ [] }

abbrev cut : SimCluster ℕ
cut = record (lone 4) { connected = false ∷ [] }

lone-IsCluster : IsCluster (lone 0)
lone-IsCluster = rw (← new-lone) (new-IsCluster fixed 1 42)

-- Whether the only node is up, or connected, is all the same.
flags-IsCluster :
    (up linked : Bool) → IsCluster (record (lone 4) { alive = up ∷ []; connected = linked ∷ [] })
flags-IsCluster up linked = record {
  stores_size = refl;
  alive_size = refl;
  connected_size = refl;
  ids_size = refl;
  known = lone-IsCluster.known;
  in_range = lone-IsCluster.in_range;
}

advance-cut_off_example :
    (es : List Event) × All IsLocal es × (some elected ≡ some (run fixed es (node0 4)))
unfolding perform advance tick_loop modify_at drain_loop drain_node deliver_loop post apply_stores
    take_ready apply_committed maybe_compact apply_loop tick become_candidate majority count
    record_vote clear become_leader advance_commit broadcast_append broadcast_loop commit_scan
    Log.last_index reset
advance-cut_off_example =
    advance-cut_off fixed lengths cut (record cut { nodes = elected ∷ []; step = 5 })
      (flags-IsCluster true false) 0 (node0 4) refl refl refl

advance-crashed_example : get_elem? (node0 4 ∷ []) 0 ≡ some (node0 4)
unfolding perform advance tick_loop modify_at drain_loop drain_node deliver_loop post apply_stores
    take_ready apply_committed maybe_compact apply_loop tick
advance-crashed_example =
    advance-crashed fixed lengths down (record down { step = 5 }) (flags-IsCluster false true) 0
      (node0 4) refl refl refl

timeouts_in_order : (sim_config 42).election_timeout_min ≤ (sim_config 42).election_timeout_max
timeouts_in_order = omega arith

run-IsTimed_example : IsTimed fixed (sim_config 42) timeouts_in_order (
    run fixed
      (ticked ∷ received (bytes "n3") (request_vote request) ∷ ticked ∷ [])
      (Node.new fixed (bytes "n1") (bytes "n3" ∷ []) (sim_config 42)))
run-IsTimed_example =
    run-IsTimed fixed (sim_config 42) timeouts_in_order (bytes "n1") (bytes "n3" ∷ [])
      (ticked ∷ received (bytes "n3") (request_vote request) ∷ ticked ∷ [])
