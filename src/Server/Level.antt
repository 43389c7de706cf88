-- ===== src/Server/Level.antt =====
-- A drain of src/raft/node.rs, as src/server.rs takes it, of a node with nothing left to commit.
use ferrium.Common.{ℕ, ◌-◌, ◌≡◌, refl, sym, ap, ◌∙◌, arith, [], inl, inr}
use ferrium.Raft.Log.Index.{Fits}
use ferrium.Raft.Node.{RaftNode}
use ferrium.Raft.Node.Drive.{take_ready}
use ferrium.Raft.Ready.{InOrder, commands, take_ready-commands, take_ready_node, take_ready-Drained}
use ferrium.Raft.Single.{IsSettled, end_of_log}
use ferrium.Raft.Startup.{Phase}

-- A node with its log committed and applied, and nothing to hand over.
pub record IsLevel {G : Type 0} (n : RaftNode G) : Type 0 where
  pub drained : n.committed ≡ []
  pub whole : n.commit_index ≡ end_of_log n
  pub applied : n.last_applied ≡ n.commit_index
  pub fits : Fits n.log

module _ {G : Type 0} (n : RaftNode G) (v : IsLevel n) where
  level-InOrder : InOrder n
  level-InOrder = record {
    compacted = omega (arith, v.applied, v.whole);
    applied = omega (arith, v.applied);
    stored = omega (arith, v.whole);
    fits = v.fits;
  }

  pub committed-level : (take_ready n).1.committed ≡ []
  unfolding commands
  committed-level =
      let nothing : n.commit_index - n.last_applied ≡ 0 = omega (arith, v.applied) in
      (take_ready-commands n level-InOrder).0 ∙ rw (v.drained, nothing) refl

  pub end_of_log-level : end_of_log (take_ready n).0 ≡ end_of_log n
  end_of_log-level = (take_ready-Drained n level-InOrder).end_of_log

  take_ready-IsLevel : IsLevel (take_ready n).0
  take_ready-IsLevel =
      let d = take_ready-Drained n level-InOrder in
      let c = ap (λ (k : RaftNode G). k.commit_index) (take_ready_node n level-InOrder) in
      record {
        drained = d.committed;
        whole = c ∙ (v.whole ∙ sym end_of_log-level);
        applied = d.last_applied ∙ sym c;
        fits = d.order.fits;
      }

  pub level-IsSettled : IsSettled n → IsSettled (take_ready n).0
  level-IsSettled u =
      let s = take_ready_node n level-InOrder in
      let l = take_ready-IsLevel in
      record {
        led = ap (λ (k : RaftNode G). k.role) s ∙ u.led;
        alone = ap (λ (k : RaftNode G). k.peers) s ∙ u.alone;
        drained = l.drained;
        whole = l.whole;
        applied = l.applied;
      }

  pub take_ready-Phase : (k t : ℕ) → Phase k t n → Phase k t (take_ready n).0
  take_ready-Phase k t (inl (w, early)) =
      let s = take_ready_node n level-InOrder in
      let l = take_ready-IsLevel in
      inl (
        record {
          alone = ap (λ (k : RaftNode G). k.peers) s ∙ w.alone;
          drained = l.drained;
          whole = l.whole;
          applied = l.applied;
          fits = l.fits;
          unled = λ e. w.unled (sym (ap (λ (k : RaftNode G). k.role) s) ∙ e);
          elapsed = ap (λ (k : RaftNode G). k.election_elapsed) s ∙ w.elapsed;
          timeout = ap (λ (k : RaftNode G). k.election_timeout) s ∙ w.timeout;
        },
        early,
      )
  take_ready-Phase k t (inr u) = inr (level-IsSettled u)

pub IsLevel-Phase :
    {G : Type 0} (k t : ℕ) (n : RaftNode G) → Phase k t n → end_of_log n ≡ 0 → IsLevel n
IsLevel-Phase k t n (inl (w, early)) e = record {
  drained = w.drained;
  whole = w.whole;
  applied = w.applied;
  fits = w.fits;
}
IsLevel-Phase k t n (inr v) e = record {
  drained = v.drained;
  whole = v.whole;
  applied = v.applied;
  fits = omega (arith, e);
}
