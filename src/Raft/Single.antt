-- ===== src/Raft/Single.antt =====
-- A node of src/raft/node.rs that is the only one of its cluster.
use ferrium.Common.{
  ℕ, ◌+◌, ◌-◌, ◌<◌, ◌≡◌, ◌≢◌, refl, sym, ap, ◌∙◌, arith, [], ◌∷◌, Bytes, length, length-append,
  drop-append, get_elem?, get_elem?-append_right, u64_mod,
}
use mathlib.Core.Option
use ferrium.Raft.Log
use ferrium.Raft.Log.{LogEntry, RaftLog}
use ferrium.Raft.Log.Index.{Fits, last_index_lem, term_at_lem, entry_term}
use ferrium.Raft.State.{leader}
use ferrium.Raft.Node.{RaftNode, command, majority, cluster_size}
use ferrium.Raft.Node.Replicate.{broadcast_append, broadcast_loop, advance_commit}
use ferrium.Raft.Node.Drive.{propose, ok, take_ready}
use ferrium.Raft.Frames.{advanced, advance_commit_lem}
use ferrium.Raft.Inputs.{appended, propose_leader}
use ferrium.Raft.Commit.{IsCommittable, advance_commit-IsCommittable, le-advance_commit}
use ferrium.Raft.Ready.{InOrder, commands, take_ready-commands, take_ready_node, take_ready-Drained}

commands-one :
    (i t : ℕ) (c : Bytes)
    → c ≢ []
    → commands i (record { term = t; command = c } ∷ []) ≡ command (i + 1) c ∷ []
unfolding commands
commands-one i t [] h = absurd (h refl)
commands-one i t (b ∷ c) h = refl

module _ {G : Type 0} where
  abbrev pub end_of_log : RaftNode G → ℕ
  end_of_log n = n.log.snapshot_index + length n.log.entries

  -- A leader without peers that has committed and applied its whole log.
  pub record IsSettled (n : RaftNode G) : Type 0 where
    pub led : n.role ≡ leader
    pub alone : n.peers ≡ []
    pub drained : n.committed ≡ []
    pub whole : n.commit_index ≡ end_of_log n
    pub applied : n.last_applied ≡ n.commit_index

  -- The node after a proposal: the entry is committed.
  abbrev pub written : Bytes → RaftNode G → RaftNode G
  written c n = record (appended c n) { commit_index = end_of_log n + 1 }

  module _ (c : Bytes) (n : RaftNode G) (v : IsSettled n) (room : end_of_log n + 2 < u64_mod) where
    abbrev m : RaftNode G
    m = appended c n

    abbrev e : LogEntry
    e = record { term = n.current_term; command = c }

    m-Fits : Fits m.log
    unfolding Log.append
    m-Fits = omega (arith, length-append n.log.entries (e ∷ []))

    last_index-m : Log.last_index m.log ≡ end_of_log n + 1
    unfolding Log.append
    last_index-m = omega (arith, last_index_lem m.log m-Fits, length-append n.log.entries (e ∷ []))

    m-IsCommittable : IsCommittable m (end_of_log n + 1)
    unfolding Log.append majority cluster_size
    m-IsCommittable =
        let first : end_of_log n + 1 - n.log.snapshot_index - 1 - length n.log.entries ≡ 0 =
          omega arith in
        (
          term_at_lem m.log (end_of_log n + 1) m-Fits (omega arith)
              ∙ ap (Option.map entry_term) (
                  get_elem?-append_right n.log.entries (e ∷ []) _ (omega arith)
                  ∙ ap (get_elem? (e ∷ [])) first),
          omega (arith, ap length v.alone),
        )

    advanced-m : advanced m ≡ end_of_log n + 1
    unfolding Log.append
    advanced-m =
        let (either, lo, hi) =
          advance_commit-IsCommittable m v.led m-Fits (omega (arith, last_index-m, v.whole)) in
        let top =
          le-advance_commit m v.led m-Fits (omega (arith, last_index-m, v.whole)) (end_of_log n + 1)
            (omega (arith, v.whole)) (omega (arith, last_index-m)) m-IsCommittable in
        omega (arith, last_index-m, ap (λ (k : RaftNode G). k.commit_index) (advance_commit_lem m))

    broadcast_append-m : broadcast_append m ≡ m
    unfolding broadcast_append broadcast_loop
    broadcast_append-m = ap (λ ps. broadcast_loop ps m) v.alone

    pub propose-written : propose c n ≡ (written c n, ok (end_of_log n + 1))
    unfolding propose Log.append
    propose-written =
        let node =
          propose_leader c n v.led
          ∙ (ap advance_commit broadcast_append-m
              ∙ (advance_commit_lem m ∙ ap (λ i. record m { commit_index = i }) advanced-m)) in
        ground (arith, node, last_index-m, v.led)

    written-InOrder : InOrder (written c n)
    unfolding Log.append
    written-InOrder =
        let l = length-append n.log.entries (e ∷ []) in
        record {
          compacted = omega (arith, v.applied, v.whole);
          applied = omega (arith, v.applied, v.whole);
          stored = omega (arith, l);
          fits = m-Fits;
        }

    end_of_log-written : end_of_log (written c n) ≡ end_of_log n + 1
    unfolding Log.append
    end_of_log-written = omega (arith, length-append n.log.entries (e ∷ []))

    -- A drain hands the command over.
    pub committed-written :
        c ≢ [] → (take_ready (written c n)).1.committed ≡ command (end_of_log n + 1) c ∷ []
    unfolding Log.append
    committed-written some_bytes =
        let handed = (take_ready-commands (written c n) written-InOrder).0 in
        let one : end_of_log n + 1 - n.last_applied ≡ 1 = omega (arith, v.applied, v.whole) in
        let all : n.last_applied - n.log.snapshot_index ≡ length n.log.entries =
          omega (arith, v.applied, v.whole) in
        handed
        ∙ rw (v.drained, one, all, drop-append n.log.entries (e ∷ []), v.applied, v.whole)
            (commands-one (end_of_log n) n.current_term c some_bytes)

    pub take_ready-IsSettled : IsSettled (take_ready (written c n)).0
    take_ready-IsSettled =
        let d = take_ready-Drained (written c n) written-InOrder in
        let same = take_ready_node (written c n) written-InOrder in
        record {
          led = ap (λ (k : RaftNode G). k.role) same ∙ v.led;
          alone = ap (λ (k : RaftNode G). k.peers) same ∙ v.alone;
          drained = d.committed;
          whole =
              ap (λ (k : RaftNode G). k.commit_index) same
              ∙ (sym end_of_log-written ∙ sym d.end_of_log);
          applied = d.last_applied ∙ sym (ap (λ (k : RaftNode G). k.commit_index) same);
        }

    pub end_of_log-take_ready : end_of_log (take_ready (written c n)).0 ≡ end_of_log n + 1
    end_of_log-take_ready =
        (take_ready-Drained (written c n) written-InOrder).end_of_log ∙ end_of_log-written
