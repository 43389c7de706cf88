-- ===== src/Raft/Run.antt =====
-- A node of src/raft/node.rs driven from outside: any sequence of its inputs.
use ferrium.Common.{List, [], ◌∷◌, Bytes}
use ferrium.Raft.Message.{NodeId, Message}
use ferrium.Raft.Node.{Rand, RaftNode}
use ferrium.Raft.Node.Drive.{tick, step, propose, take_ready}

-- The public methods that change a node.
pub data Event : Type 0 where
  ticked : Event
  received : (from : NodeId) → (message : Message) → Event
  proposed : (command : Bytes) → Event
  drained : Event

module _ (R : Rand) where
  open R use {StdRng}

  unfoldable pub react : Event → RaftNode StdRng → RaftNode StdRng
  react ticked n = tick R n
  react (received from message) n = step R from message n
  react (proposed command) n = (propose command n).0
  react drained n = (take_ready n).0

  unfoldable pub run : List Event → RaftNode StdRng → RaftNode StdRng
  run [] n = n
  run (e ∷ es) n = run es (react e n)

  -- An invariant of `react` is one of every run.
  pub run_induction {ℓ} :
      (P : RaftNode StdRng → Type ℓ)
      → ((e : Event) (n : RaftNode StdRng) → P n → P (react e n))
      → (es : List Event) (n : RaftNode StdRng) → P n
      → P (run es n)
  unfolding run
  run_induction P keep [] n h = h
  run_induction P keep (e ∷ es) n h = run_induction P keep es (react e n) (keep e n h)
