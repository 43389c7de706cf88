-- ===== src/Sim.antt =====
-- src/sim.rs: a cluster of nodes over a synchronous network in memory. `none` is a panic: a `Vec`
-- indexed out of range, or a `HashMap` indexed at a key that it does not have.
pub mod Control
pub mod Panics
pub mod Evolution
pub mod Posting
pub mod Steps
pub mod Start
pub mod Runs
pub mod Safety
use ferrium.Common.{
  ℕ, zero, suc, ◌+◌, Bool, true, false, not, if◌then◌else◌, u64, ◌==◌, str_eq, Option, none, some,
  List, [], ◌∷◌, ◌++◌, map, Bytes, bytes, HashMap, lookup, insert, length, get_elem?,
}
use ferrium.Protocol.Decimal.{decimal}
use ferrium.Raft.Message.{NodeId, Message}
use ferrium.Raft.Node
use ferrium.Raft.Node.{Rand, RaftNode, RaftConfig, Ready, Envelope, Committed, command, snapshot}
use ferrium.Raft.Node.Drive.{tick, step, take_ready}
use ferrium.Storage.Engine
use ferrium.Storage.Engine.{MemoryEngine}
use ferrium.Storage.Apply.{WriteCommand, Codec, apply}

infixl 10 ◌>>=◌
abbrev pub ◌>>=◌ {ℓ κ} : {A : Type ℓ} {B : Type κ} → Option A → (A → Option B) → Option B
none >>= f = none
some a >>= f = f a

-- A method called on the element of a `Vec`.
unfoldable pub modify_at {ℓ} : {A : Type ℓ} → ℕ → (A → A) → List A → Option (List A)
modify_at i f [] = none
modify_at zero f (x ∷ xs) = some (f x ∷ xs)
modify_at (suc i) f (x ∷ xs) = do xs' ← modify_at i f xs; some (x ∷ xs')

pub record SimCluster (G : Type 0) : Type 0 where
  pub nodes : List (RaftNode G)
  pub stores : List MemoryEngine
  pub alive : List Bool
  pub connected : List Bool
  pub ids : List NodeId
  pub id_to_idx : HashMap ℕ
  pub step : ℕ

-- A message on the bus: the index of its receiver, and its sender.
pub record Parcel : Type 0 where
  pub to : ℕ
  pub from : NodeId
  pub message : Message

-- The second test is made where the first holds.
abbrev pub and_also : Option Bool → Option Bool → Option Bool
and_also (some true) m = m
and_also (some false) m = some false
and_also none m = none

unfoldable pub deliverable : List Bool → List Bool → ℕ → ℕ → Option Bool
deliverable alive connected from to =
    and_also (get_elem? alive from)
      (and_also (get_elem? alive to) (and_also (get_elem? connected from) (get_elem? connected to)))

module _ (C : Codec) where
  -- `SimCluster::apply`
  unfoldable pub apply_store : ℕ → Committed → List MemoryEngine → Option (List MemoryEngine)
  apply_store i (command index c) stores = elim (C.decode c) [
    | some cmd ↦ modify_at i (λ e. (apply cmd e).0) stores
    | none ↦ some stores
  ]
  apply_store i (snapshot entries) stores = modify_at i (Engine.restore entries) stores

  unfoldable pub apply_stores : ℕ → List Committed → List MemoryEngine → Option (List MemoryEngine)
  apply_stores i [] stores = some stores
  apply_stores i (c ∷ cs) stores = do stores' ← apply_store i c stores; apply_stores i cs stores'

-- The messages to nodes of the cluster, put on the bus.
unfoldable pub post_to : Option ℕ → Option NodeId → Message → List Parcel → Option (List Parcel)
post_to none sender message bus = some bus
post_to (some to) sender message bus = do
  from ← sender
  some (bus ++ record { to = to; from = from; message = message } ∷ [])

unfoldable pub post : HashMap ℕ → Option NodeId → List Envelope → List Parcel → Option (List Parcel)
post id_to_idx sender [] bus = some bus
post id_to_idx sender (env ∷ envs) bus = do
  bus' ← post_to (lookup env.to id_to_idx) sender env.message bus
  post id_to_idx sender envs bus'

-- What the drain changes: the nodes, the stores and the bus.
pub record Drained (G : Type 0) : Type 0 where
  pub nodes : List (RaftNode G)
  pub stores : List MemoryEngine
  pub bus : List Parcel

module _ {G : Type 0} (C : Codec) (ids : List NodeId) (id_to_idx : HashMap ℕ) where
  unfoldable pub drain_node : ℕ → Drained G → Option (Drained G)
  drain_node i s = do
    n ← get_elem? s.nodes i
    nodes' ← modify_at i (λ _. (take_ready n).0) s.nodes
    stores' ← apply_stores C i (take_ready n).1.committed s.stores
    bus' ← post id_to_idx (get_elem? ids i) (take_ready n).1.messages s.bus
    some (record { nodes = nodes'; stores = stores'; bus = bus' })

  unfoldable pub drain_loop : List Bool → ℕ → ℕ → Drained G → Option (Drained G)
  drain_loop alive zero i s = some s
  drain_loop alive (suc k) i s = do
    up ← get_elem? alive i
    s' ← if up then drain_node i s else some s
    drain_loop alive k (suc i) s'

module _ (R : Rand) where
  open R use {StdRng}

  -- `k` more nodes, from `i` on.
  unfoldable pub tick_loop :
      List Bool → ℕ → ℕ → List (RaftNode StdRng) → Option (List (RaftNode StdRng))
  tick_loop alive zero i nodes = some nodes
  tick_loop alive (suc k) i nodes = do
    up ← get_elem? alive i
    nodes' ← if up then modify_at i (tick R) nodes else some nodes
    tick_loop alive k (suc i) nodes'

  module _ (alive connected : List Bool) (id_to_idx : HashMap ℕ) where
    unfoldable pub deliver_loop :
        List Parcel → List (RaftNode StdRng) → Option (List (RaftNode StdRng))
    deliver_loop [] nodes = some nodes
    deliver_loop (p ∷ bus) nodes = do
      from_idx ← lookup p.from id_to_idx
      reaches ← deliverable alive connected from_idx p.to
      nodes' ← if reaches then modify_at p.to (step R p.from p.message) nodes else some nodes
      deliver_loop bus nodes'

module _ (R : Rand) (C : Codec) where
  open R use {StdRng}

  -- `SimCluster::step`
  unfoldable pub advance : SimCluster StdRng → Option (SimCluster StdRng)
  advance c = do
    ticked ← tick_loop R c.alive (length c.nodes) 0 c.nodes
    drained ←
        drain_loop C c.ids c.id_to_idx c.alive (length ticked) 0
          (record { nodes = ticked; stores = c.stores; bus = [] })
    nodes' ← deliver_loop R c.alive c.connected c.id_to_idx drained.bus drained.nodes
    some (record c { nodes = nodes'; stores = drained.stores; step = u64 (c.step + 1) })

  unfoldable pub run : ℕ → SimCluster StdRng → Option (SimCluster StdRng)
  run zero c = some c
  run (suc steps) c = do c' ← advance c; run steps c'

  -- Whether the test held, and the cluster.
  unfoldable pub run_until :
      ℕ → (SimCluster StdRng → Bool) → SimCluster StdRng → Option (Bool × SimCluster StdRng)
  run_until zero pred c = some (pred c, c)
  run_until (suc max) pred c =
      let more = (do c' ← advance c; run_until max pred c') in
      if pred c then some (true, c) else more

-- `(0..n).map(|i| format!("n{i}"))`, from `i` on.
unfoldable pub names : ℕ → ℕ → List NodeId
names zero i = []
names (suc k) i = (bytes "n" ++ decimal i) ∷ names k (suc i)

-- `ids.iter().cloned().zip(0..).collect()`
unfoldable pub number : List NodeId → ℕ → HashMap ℕ → HashMap ℕ
number [] i m = m
number (id ∷ ids) i m = number ids (suc i) (insert id i m)

unfoldable pub others : NodeId → List NodeId → List NodeId
others id [] = []
others id (p ∷ ids) = if not (str_eq p id) then p ∷ others id ids else others id ids

-- `vec![x; n]`
unfoldable pub replicate {ℓ} : {A : Type ℓ} → ℕ → A → List A
replicate zero x = []
replicate (suc n) x = x ∷ replicate n x

abbrev pub sim_config : ℕ → RaftConfig
sim_config seed = record {
  heartbeat_ticks = 1;
  election_timeout_min = 5;
  election_timeout_max = 10;
  snapshot_threshold = 8;
  seed = some seed;
}

module _ (R : Rand) where
  open R use {StdRng}

  unfoldable pub new_nodes : List NodeId → ℕ → ℕ → List NodeId → List (RaftNode StdRng)
  new_nodes ids seed i [] = []
  new_nodes ids seed i (id ∷ more) =
      Node.new R id (others id ids) (sim_config (u64 (seed + i))) ∷ new_nodes ids seed (suc i) more

  unfoldable pub new : ℕ → ℕ → SimCluster StdRng
  new n seed =
      let ids = names n 0 in
      record {
        nodes = new_nodes ids seed 0 ids;
        stores = replicate n Engine.new;
        alive = replicate n true;
        connected = replicate n true;
        ids = ids;
        id_to_idx = number ids 0 [];
        step = 0;
      }
