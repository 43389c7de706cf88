-- ===== src/Server/Proposals.antt =====
-- src/server.rs, handle_request: a proposal to a node that leads behind it.
use ferrium.Common.{◌≡◌, refl, sym, inl, inr}
use ferrium.Raft.Log
use ferrium.Raft.State.{leader}
use ferrium.Raft.Node.{Rand, RaftNode}
use ferrium.Raft.Node.Drive.{Proposed, ok, not_leader, propose}
use ferrium.Raft.LeaderLog.{additions, index-propose, react-Appends, Appends}
use ferrium.Raft.Inputs.{Role-cases, propose_other}
use ferrium.Raft.Run.{react, proposed}
use ferrium.Storage.Apply.{WriteCommand, Codec}
use ferrium.Server.{Driver, Sender, answer_propose}

module _ (R : Rand) (C : Codec) where
  open R use {StdRng}

  pub node-answer_propose :
      (r : RaftNode StdRng × Proposed) (done : Sender) (d : Driver StdRng)
      → (answer_propose R C r done d).node ≡ r.0
  unfolding answer_propose
  node-answer_propose (n, ok index) done d = refl
  node-answer_propose (n, not_leader to) done d = refl

  -- What holds if the node has appended the command and returned its last index.
  pub by_leader :
      (cmd : WriteCommand) (done : Sender) (d : Driver StdRng) (P : Driver StdRng → Type 0)
      → (answer_propose R C (propose (C.encode cmd) d.node) done d).node.role ≡ leader
      → (Appends
            (additions (proposed (C.encode cmd)) d.node)
            d.node
            (propose (C.encode cmd) d.node).0
          → P (
              answer_propose R C
                (
                  (propose (C.encode cmd) d.node).0,
                  ok (Log.last_index (propose (C.encode cmd) d.node).0.log),
                )
                done
                d))
      → P (answer_propose R C (propose (C.encode cmd) d.node) done d)
  unfolding react
  by_leader cmd done d P l h =
      let r = propose (C.encode cmd) d.node in
      let leads : r.0.role ≡ leader = rw (sym (node-answer_propose r done d)) l in
      elim (Role-cases d.node.role) [
        | inl led ↦
            rw (index-propose (C.encode cmd) d.node led)
              (h (react-Appends R (proposed (C.encode cmd)) d.node tt leads))
        | inr other ↦ absurd (other (rw (sym (propose_other (C.encode cmd) d.node other)) leads))
      ]
