-- ===== src/Raft/Startup.antt =====
-- How a node of src/raft/node.rs that is the only one of its cluster comes to lead it.
use ferrium.Common.{
  ℕ, zero, suc, ◌+◌, ◌-◌, ◌≤◌, ◌<◌, ◌≡◌, refl, sym, ap, ◌∙◌, arith, leb, true, Bool-cases, if_intro,
  [], length, u64, u64_mod, ◌⊎◌, inl, inr,
}
use ferrium.Raft.Log
use ferrium.Raft.Log.Index.{Fits, last_index_lem}
use ferrium.Raft.Message.{NodeId}
use ferrium.Raft.State.{leader, count, record_vote, clear, contains}
use ferrium.Raft.Node
use ferrium.Raft.Node.{Rand, RaftNode, RaftConfig, majority, cluster_size}
use ferrium.Raft.Node.Replicate.{broadcast_append, broadcast_loop, commit_scan}
use ferrium.Raft.Node.Roles.{become_candidate, become_leader, stand, reset_election_timer}
use ferrium.Raft.Node.Drive.{tick}
use ferrium.Raft.Frames.{advanced, crowned, become_leader_lem}
use ferrium.Raft.Inputs.{beat, waited, tick_leader, tick_other}
use ferrium.Raft.Single.{IsSettled, end_of_log}

-- It awaits its election, with nothing pending, `k` ticks since its timer was set.
pub record IsWaiting {G : Type 0} (k t : ℕ) (n : RaftNode G) : Type 0 where
  pub alone : n.peers ≡ []
  pub drained : n.committed ≡ []
  pub whole : n.commit_index ≡ end_of_log n
  pub applied : n.last_applied ≡ n.commit_index
  pub fits : Fits n.log
  pub unled : ¬ (n.role ≡ leader)
  pub elapsed : n.election_elapsed ≡ k
  pub timeout : n.election_timeout ≡ t

-- It waits, not yet for its timeout, or it leads.
abbrev pub Phase : {G : Type 0} → ℕ → ℕ → RaftNode G → Type 0
Phase k t n = (IsWaiting k t n × ((k ≡ 0) ⊎ (k < t))) ⊎ IsSettled n

module _ {G : Type 0} where
  -- A new leader whose log is committed has nothing to commit.
  advanced-whole :
      (n : RaftNode G)
      → n.role ≡ leader
      → Fits n.log
      → n.commit_index ≡ end_of_log n
      → advanced n ≡ n.commit_index
  unfolding advanced commit_scan
  advanced-whole n led fits whole =
      let none_left : Log.last_index n.log + 1 - u64 (n.commit_index + 1) ≡ 0 =
        omega (arith, last_index_lem n.log fits) in
      rw (led, none_left) refl

  become_leader-IsSettled :
      (n : RaftNode G)
      → n.peers ≡ []
      → n.committed ≡ []
      → n.commit_index ≡ end_of_log n
      → n.last_applied ≡ n.commit_index
      → Fits n.log
      → IsSettled (become_leader n)
  unfolding crowned
  become_leader-IsSettled n alone drained whole applied fits =
      let same = advanced-whole _ refl fits whole in
      rw (become_leader_lem n) (record {
        led = refl;
        alone = alone;
        drained = drained;
        whole = same ∙ whole;
        applied = applied ∙ sym same;
      })

module _ (R : Rand) where
  open R use {StdRng}

  unfoldable pub ticks : ℕ → RaftNode StdRng → RaftNode StdRng
  ticks zero n = n
  ticks (suc k) n = tick R (ticks k n)

  pub beat-IsSettled : (n : RaftNode StdRng) → IsSettled n → IsSettled (beat R n)
  unfolding broadcast_append broadcast_loop
  beat-IsSettled n v =
      let n' : RaftNode StdRng = record n { heartbeat_elapsed = 0 } in
      let kept : IsSettled n' = record {
        led = v.led;
        alone = v.alone;
        drained = v.drained;
        whole = v.whole;
        applied = v.applied;
      } in
      let quiet : broadcast_append n' ≡ n' = ap (λ ps. broadcast_loop ps n') v.alone in
      if_intro IsSettled (leb n.config.heartbeat_ticks (u64 (n.heartbeat_elapsed + 1))) _ _
        (λ e. rw quiet kept)
        λ e. record {
          led = v.led;
          alone = v.alone;
          drained = v.drained;
          whole = v.whole;
          applied = v.applied;
        }

  become_candidate-IsSettled :
      (k t : ℕ) (n : RaftNode StdRng)
      → IsWaiting k t n
      → IsSettled (become_candidate R (waited R n))
  unfolding become_candidate stand reset_election_timer majority cluster_size count record_vote
      contains clear
  become_candidate-IsSettled k t n w =
      let s = stand R (waited R n) in
      let one_vote : leb (majority s) (count s.votes) ≡ true = ground (arith, ap length w.alone) in
      rw one_vote (become_leader-IsSettled s w.alone w.drained w.whole w.applied w.fits)

  waited-IsWaiting :
      (k t : ℕ) (n : RaftNode StdRng)
      → IsWaiting k t n
      → suc k < u64_mod
      → IsWaiting (suc k) t (waited R n)
  waited-IsWaiting k t n w h = record {
    alone = w.alone;
    drained = w.drained;
    whole = w.whole;
    applied = w.applied;
    fits = w.fits;
    unled = w.unled;
    elapsed = omega (arith, w.elapsed);
    timeout = w.timeout;
  }

  -- A tick brings the election nearer, and later keeps the leader.
  pub tick-Phase :
      (k t : ℕ) (n : RaftNode StdRng) → Phase k t n → suc k < u64_mod → Phase (suc k) t (tick R n)
  tick-Phase k t n (inr v) h = inr (rw (tick_leader R n v.led) (beat-IsSettled n v))
  tick-Phase k t n (inl (w, early)) h =
      let next : u64 (n.election_elapsed + 1) ≡ suc k = omega (arith, w.elapsed) in
      elim (Bool-cases (leb n.election_timeout (u64 (n.election_elapsed + 1)))) [
        | inl late ↦ inr (rw (tick_other R n w.unled, late) (become_candidate-IsSettled k t n w))
        | inr more ↦ inl (
            rw (tick_other R n w.unled, more)
              (waited-IsWaiting k t n w h, inr (ground (arith, next, w.timeout))))
      ]

  ticks-Phase : (k t : ℕ) (n : RaftNode StdRng) → Phase 0 t n → k < u64_mod → Phase k t (ticks k n)
  unfolding ticks
  ticks-Phase zero t n p h = p
  ticks-Phase (suc k) t n p h = tick-Phase k t (ticks k n) (ticks-Phase k t n p (omega arith)) h

  pub new-Phase :
      (id : NodeId) (config : RaftConfig)
      → Phase 0 (Node.new R id [] config).election_timeout (Node.new R id [] config)
  unfolding Node.new
  new-Phase id config = inl (first, inl refl)
    where
      first : IsWaiting 0 (Node.new R id [] config).election_timeout (Node.new R id [] config)
      first = record {
        alone = refl;
        drained = refl;
        whole = refl;
        applied = refl;
        fits = omega arith;
        unled = λ e. cc;
        elapsed = refl;
        timeout = refl;
      }

  election_timeout-new :
      (id : NodeId) (config : RaftConfig)
      → config.election_timeout_min ≤ config.election_timeout_max
      → (Node.new R id [] config).election_timeout ≤ config.election_timeout_max
  unfolding Node.new
  election_timeout-new id config h = (R.gen_range_bounds _ _ _ h).1

  -- At the greatest timeout it does not wait any more.
  pub IsSettled-by_timeout :
      (id : NodeId) (config : RaftConfig) (k : ℕ)
      → config.election_timeout_min ≤ config.election_timeout_max
      → config.election_timeout_max ≤ k
      → 0 < k
      → (n : RaftNode StdRng) → Phase k (Node.new R id [] config).election_timeout n
      → IsSettled n
  IsSettled-by_timeout id config k h le some_ticks n (inr v) = v
  IsSettled-by_timeout id config k h le some_ticks n (inl (w, inl none)) = absurd (omega arith)
  IsSettled-by_timeout id config k h le some_ticks n (inl (w, inr early)) =
      absurd (omega (arith, election_timeout-new id config h))

  -- A fresh node without peers, whose least election timeout is not above its greatest, leads its
  -- cluster after as many ticks as the greatest one, and at least one, whatever the generator
  -- draws, and stays its leader through fewer than 2^64 ticks, with its whole log committed and
  -- applied.
  pub new-IsSettled :
      (id : NodeId) (config : RaftConfig) (k : ℕ)
      → config.election_timeout_min ≤ config.election_timeout_max
      → config.election_timeout_max ≤ k
      → 0 < k
      → k < u64_mod
      → IsSettled (ticks k (Node.new R id [] config))
  new-IsSettled id config k h le some_ticks fits =
      IsSettled-by_timeout id config k h le some_ticks _
        (ticks-Phase k _ (Node.new R id [] config) (new-Phase id config) fits)
