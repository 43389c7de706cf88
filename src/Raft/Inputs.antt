-- ===== src/Raft/Inputs.antt =====
-- `tick` and `propose` of src/raft/node.rs by role.
use ferrium.Common.{◌+◌, ◌≡◌, refl, arith, leb, if◌then◌else◌, [], ◌∷◌, Bytes, u64, ◌⊎◌, inl, inr}
use ferrium.Raft.Log
use ferrium.Raft.State.{Role, follower, candidate, leader}
use ferrium.Raft.Node.{Rand, RaftNode}
use ferrium.Raft.Node.Replicate.{advance_commit, broadcast_append}
use ferrium.Raft.Node.Roles.{become_candidate}
use ferrium.Raft.Node.Drive.{tick, propose}

pub Role-cases : (r : Role) → (r ≡ leader) ⊎ (¬ (r ≡ leader))
Role-cases leader = inl refl
Role-cases follower = inr (λ e. cc)
Role-cases candidate = inr (λ e. cc)

module _ {G : Type 0} where
  -- The leader's log with one more entry, of its own term.
  abbrev pub appended : Bytes → RaftNode G → RaftNode G
  appended c n = record n {
    log = (Log.append (record { term = n.current_term; command = c } ∷ []) n.log).0;
  }

  pub propose_leader :
      (c : Bytes) (n : RaftNode G)
      → n.role ≡ leader
      → (propose c n).0 ≡ advance_commit (broadcast_append (appended c n))
  unfolding propose
  propose_leader c n e = ground arith

  pub propose_other : (c : Bytes) (n : RaftNode G) → ¬ (n.role ≡ leader) → (propose c n).0 ≡ n
  unfolding propose
  propose_other c n e = ground arith

module _ (R : Rand) where
  open R use {StdRng}

  abbrev pub beat : RaftNode StdRng → RaftNode StdRng
  beat n =
      if leb n.config.heartbeat_ticks (u64 (n.heartbeat_elapsed + 1))
      then broadcast_append (record n { heartbeat_elapsed = 0 })
      else record n { heartbeat_elapsed = u64 (n.heartbeat_elapsed + 1) }

  abbrev pub waited : RaftNode StdRng → RaftNode StdRng
  waited n = record n { election_elapsed = u64 (n.election_elapsed + 1) }

  pub tick_leader : (n : RaftNode StdRng) → n.role ≡ leader → tick R n ≡ beat n
  unfolding tick
  tick_leader n e = ground arith

  pub tick_other :
      (n : RaftNode StdRng)
      → ¬ (n.role ≡ leader)
      → tick R n ≡ (
          if leb n.election_timeout (u64 (n.election_elapsed + 1))
          then become_candidate R (waited n)
          else waited n)
  unfolding tick
  tick_other n e = ground arith
