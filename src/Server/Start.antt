-- ===== src/Server/Start.antt =====
-- src/server.rs, run: the driver and the members that a configuration gives, and how a node that is
-- started alone comes to serve.
use ferrium.Common.{
  ℕ, zero, suc, ◌+◌, ◌≤◌, ◌<◌, ◌≡◌, refl, ap, ◌∙◌, arith, none, List, [], ◌∷◌, map, Bytes, length,
  u64_mod, false, if_intro,
}
use ferrium.Raft.Node
use ferrium.Raft.Node.{Rand, RaftNode, RaftConfig}
use ferrium.Raft.Node.Drive.{tick, take_ready}
use ferrium.Raft.LeaderLog.{tick-log}
use ferrium.Raft.Single.{IsSettled, end_of_log}
use ferrium.Raft.Inputs.{tick_leader}
use ferrium.Raft.Startup.{beat-IsSettled, Phase, tick-Phase, new-Phase, IsSettled-by_timeout}
use ferrium.Storage.Engine
use ferrium.Storage.Engine.{MemoryEngine}
use ferrium.Storage.Apply.{Codec}
use ferrium.Net.Config.{SocketAddr, Peer, Config}
use ferrium.Server.{
  Driver, ticked, on_event, round, process_ready, apply_all, update_metrics, drop_waiters,
}
use ferrium.Server.Metrics
use ferrium.Server.Single.{IsIdle}
use ferrium.Server.Level.{
  IsLevel, committed-level, end_of_log-level, level-IsSettled, take_ready-Phase, IsLevel-Phase,
}

abbrev pub driver_config : RaftConfig
driver_config = record {
  heartbeat_ticks = 2;
  election_timeout_min = 6;
  election_timeout_max = 12;
  snapshot_threshold = 1024;
  seed = none;
}

abbrev pub peer_ids : List Peer → List Bytes
peer_ids = map (λ p. p.id)

-- The text of an address is a parameter.
unfoldable pub members : (SocketAddr → Bytes) → Config → List (Bytes × Bytes)
members text c = (c.id, text c.addr) ∷ map (λ (p : Peer). (p.id, text p.addr)) c.peers

module _ (R : Rand) where
  open R use {StdRng}

  unfoldable pub initial_driver : Config → Driver StdRng
  initial_driver c = record {
    node = Node.new R c.id (peer_ids c.peers) driver_config;
    storage = Engine.new;
    metrics = Metrics.new;
    waiters = [];
    was_leader = false;
    cluster_size = length (peer_ids c.peers) + 1;
    to_peers = [];
    outcomes = [];
    statuses = [];
  }

module _ (R : Rand) (C : Codec) where
  open R use {StdRng}

  unfoldable pub tick_rounds : ℕ → Driver StdRng → Driver StdRng
  tick_rounds zero d = d
  tick_rounds (suc k) d = round R C ticked (tick_rounds k d)

  -- A driver that is idle as another is, with the same map and a log that ends where the other's
  -- does.
  pub record StaysIdle (d d' : Driver StdRng) : Type 0 where
    pub idle : IsIdle d'
    pub storage : d'.storage ≡ d.storage
    pub end_of_log : end_of_log d'.node ≡ end_of_log d.node

  -- A tick's round leaves a lone leader's driver idle.
  pub round-StaysIdle :
      (d : Driver StdRng)
      → IsIdle d
      → end_of_log d.node + 1 < u64_mod
      → StaysIdle d (round R C ticked d)
  unfolding round on_event process_ready apply_all update_metrics drop_waiters
  round-StaysIdle d v room =
      let m : RaftNode StdRng = tick R d.node in
      let p : IsSettled m = rw (tick_leader R d.node v.node.led) (beat-IsSettled R d.node v.node) in
      let e : end_of_log m ≡ end_of_log d.node =
        ap (λ l. l.snapshot_index + length l.entries) (tick-log R d.node) in
      let level : IsLevel m = record {
        drained = p.drained;
        whole = p.whole;
        applied = p.applied;
        fits = omega (arith, e);
      } in
      let q = level-IsSettled m level p in
      let e' = end_of_log-level m level ∙ e in
      rw (committed-level m level) (
        if_intro (StaysIdle d) (Node.is_leader (take_ready m).0) _ _
          (λ _. record {
            idle = record { node = q; answered = v.answered };
            storage = refl;
            end_of_log = e';
          })
          λ _. record {
            idle = record { node = q; answered = refl };
            storage = refl;
            end_of_log = e';
          })

  -- Any number of them does.
  pub tick_rounds-StaysIdle :
      (k : ℕ) (d : Driver StdRng)
      → IsIdle d
      → end_of_log d.node + 1 < u64_mod
      → StaysIdle d (tick_rounds k d)
  unfolding tick_rounds
  tick_rounds-StaysIdle zero d v room = record { idle = v; storage = refl; end_of_log = refl }
  tick_rounds-StaysIdle (suc k) d v room =
      let s = tick_rounds-StaysIdle k d v room in
      let r = round-StaysIdle (tick_rounds k d) s.idle (omega (arith, s.end_of_log)) in
      record {
        idle = r.idle;
        storage = r.storage ∙ s.storage;
        end_of_log = r.end_of_log ∙ s.end_of_log;
      }

  -- A driver that has seen ticks only.
  record IsStarting (k t : ℕ) (d : Driver StdRng) : Type 0 where
    phase : Phase k t d.node
    short : end_of_log d.node ≡ 0
    no_waiters : d.waiters ≡ []
    empty : d.storage ≡ Engine.new

  round-IsStarting :
      (k t : ℕ) (d : Driver StdRng)
      → IsStarting k t d
      → suc k < u64_mod
      → IsStarting (suc k) t (round R C ticked d)
  unfolding round on_event process_ready apply_all update_metrics drop_waiters
  round-IsStarting k t d v h =
      let m : RaftNode StdRng = tick R d.node in
      let p = tick-Phase R k t d.node v.phase h in
      let e : end_of_log m ≡ 0 =
        ap (λ l. l.snapshot_index + length l.entries) (tick-log R d.node) ∙ v.short in
      let level = IsLevel-Phase (suc k) t m p e in
      let q = take_ready-Phase m level (suc k) t p in
      let e' = end_of_log-level m level ∙ e in
      rw (committed-level m level) (
        if_intro (IsStarting (suc k) t) (Node.is_leader (take_ready m).0) _ _
          (λ _. record { phase = q; short = e'; no_waiters = v.no_waiters; empty = v.empty })
          λ _. record { phase = q; short = e'; no_waiters = refl; empty = v.empty })

  tick_rounds-IsStarting :
      (k t : ℕ) (d : Driver StdRng)
      → IsStarting 0 t d
      → k < u64_mod
      → IsStarting k t (tick_rounds k d)
  unfolding tick_rounds
  tick_rounds-IsStarting zero t d v h = v
  tick_rounds-IsStarting (suc k) t d v h =
      round-IsStarting k t (tick_rounds k d) (tick_rounds-IsStarting k t d v (omega arith)) h

  initial-IsStarting :
      (c : Config)
      → c.peers ≡ []
      → IsStarting 0 (Node.new R c.id [] driver_config).election_timeout (initial_driver R c)
  unfolding initial_driver Node.new
  initial-IsStarting c e = record {
    phase = rw e (new-Phase R c.id driver_config);
    short = refl;
    no_waiters = refl;
    empty = refl;
  }

  -- A node that is configured without peers leads, with nothing pending and an empty map, after
  -- twelve ticks, also if more follow.
  pub tick_rounds-IsIdle :
      (c : Config) (k : ℕ)
      → c.peers ≡ []
      → 12 ≤ k
      → k < u64_mod
      → IsIdle (tick_rounds k (initial_driver R c))
        × (end_of_log (tick_rounds k (initial_driver R c)).node ≡ 0)
        × ((tick_rounds k (initial_driver R c)).storage ≡ Engine.new)
  tick_rounds-IsIdle c k e lo hi =
      let v = tick_rounds-IsStarting k _ (initial_driver R c) (initial-IsStarting c e) hi in
      let led =
        IsSettled-by_timeout R c.id driver_config k (omega arith) lo (omega arith) _ v.phase in
      (record { node = led; answered = v.no_waiters }, v.short, v.empty)
