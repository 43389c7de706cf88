-- ===== src/Raft/Ready.antt =====
-- What `take_ready` of src/raft/node.rs hands to the state machine.
use ferrium.Common.{
  ℕ, zero, suc, ◌+◌, ◌-◌, ◌≤◌, ◌<◌, ◌≡◌, refl, arith, leb, if◌then◌else◌, List, [], ◌∷◌, ◌++◌,
  append_assoc, append-nil, length, take, drop, get_elem?-eq-some, drop-cons, u64, u64_mod,
  length-drop,
}
use ferrium.Raft.Log
use ferrium.Raft.Log.{LogEntry, RaftLog}
use ferrium.Raft.Log.Index.{Fits, last_index_lem, get_lem}
use ferrium.Raft.Log.Compact.{get-compact}
use ferrium.Raft.Node.{RaftNode, Committed, command}
use ferrium.Raft.Node.Replicate.{
  is_empty, pushed, apply_one, apply_loop, maybe_compact, apply_committed,
}
use ferrium.Raft.Node.Drive.{take_ready}

-- The commands of consecutive entries, each with its index, the first one after `i`. An entry with
-- no command is passed over.
unfoldable pub commands : ℕ → List LogEntry → List Committed
commands i [] = []
commands i (e ∷ es) =
    let rest = commands (i + 1) es in
    if is_empty e.command then rest else command (i + 1) e.command ∷ rest

-- The same by lookups.
unfoldable pub deliver : RaftLog → ℕ → ℕ → List Committed
deliver log i zero = []
deliver log i (suc len) = pushed (i + 1) (Log.get log (i + 1)) ++ deliver log (i + 1) len

deliver-append :
    (log : RaftLog) (i a b : ℕ) → deliver log i a ++ deliver log (i + a) b ≡ deliver log i (a + b)
unfolding deliver
deliver-append log i zero b =
    let e : i + 0 ≡ i = omega arith in let e' : 0 + b ≡ b = omega arith in rw (e, e')
deliver-append log i (suc a) b =
    let e : i + suc a ≡ i + 1 + a = omega arith in
    let e' : suc a + b ≡ suc (a + b) = omega arith in
    rw (e, e', append_assoc (pushed (i + 1) (Log.get log (i + 1))), deliver-append log (i + 1) a b)

deliver-compact :
    (log : RaftLog) (k i len : ℕ)
    → Fits log
    → k ≤ i
    → deliver (Log.compact k log) i len ≡ deliver log i len
unfolding deliver
deliver-compact log k i zero f h = refl
deliver-compact log k i (suc len) f h =
    rw
      (get-compact log k f (i + 1) (omega arith), deliver-compact log k (i + 1) len f (omega arith))

deliver-commands :
    (log : RaftLog) (i len : ℕ)
    → Fits log
    → log.snapshot_index ≤ i
    → i + len ≤ log.snapshot_index + length log.entries
    → deliver log i len ≡ commands i (take len (drop (i - log.snapshot_index) log.entries))
unfolding deliver commands pushed
deliver-commands log i zero f lo hi = refl
deliver-commands log i (suc len) f lo hi =
    let k = i - log.snapshot_index in
    let (x, p) = get_elem?-eq-some log.entries k (omega arith) in
    let e : i + 1 - log.snapshot_index ≡ suc k = omega arith in
    let e' : i + 1 - log.snapshot_index - 1 ≡ k = omega arith in
    ground (
      arith,
      p,
      e,
      e',
      drop-cons k log.entries x,
      get_lem log (i + 1) f,
      deliver-commands log (i + 1) len f,
    )

module _ {G : Type 0} where
  apply_loop_lem :
      (fuel : ℕ) (n : RaftNode G)
      → n.last_applied + fuel ≡ n.commit_index
      → n.commit_index < u64_mod
      → apply_loop fuel n ≡ record n {
        last_applied = n.commit_index;
        committed = n.committed ++ deliver n.log n.last_applied fuel;
      }
  unfolding apply_loop deliver apply_one
  apply_loop_lem zero n e b =
      let e' : n.last_applied ≡ n.commit_index = omega arith in
      ground (arith, append-nil n.committed)
  apply_loop_lem (suc fuel) n e b =
      let i : u64 (n.last_applied + 1) ≡ n.last_applied + 1 = omega arith in
      let m : RaftNode G = record n {
        last_applied = n.last_applied + 1;
        committed = n.committed ++ pushed (n.last_applied + 1) (Log.get n.log (n.last_applied + 1));
      } in
      ground (
        arith,
        i,
        apply_loop_lem fuel m,
        append_assoc n.committed (pushed (n.last_applied + 1) (Log.get n.log (n.last_applied + 1)))
            (deliver n.log (n.last_applied + 1) fuel),
      )

-- The order that a node keeps: compacted, applied, committed, stored; and room for one more index.
pub record InOrder {G : Type 0} (n : RaftNode G) : Type 0 where
  pub compacted : n.log.snapshot_index ≤ n.last_applied
  pub applied : n.last_applied ≤ n.commit_index
  pub stored : n.commit_index ≤ n.log.snapshot_index + length n.log.entries
  pub fits : Fits n.log

module _ {G : Type 0} (n : RaftNode G) (v : InOrder n) where
  abbrev applied_all : RaftNode G
  applied_all = record n {
    last_applied = n.commit_index;
    committed = n.committed ++ deliver n.log n.last_applied (n.commit_index - n.last_applied);
  }

  apply_committed_lem : apply_committed n ≡ maybe_compact applied_all
  unfolding apply_committed
  apply_committed_lem = ground (arith, apply_loop_lem (n.commit_index - n.last_applied) n)

  -- A drain of a node in order hands over all pending messages, and behind the pending ones the
  -- commands of the entries after the last applied index up to the commit index, in order and with
  -- their indices, entries without a command left out. Afterwards everything committed is applied
  -- and nothing is pending.
  pub take_ready-commands :
      ((take_ready n).1.committed
        ≡ n.committed
          ++ commands n.last_applied (
              take
                (n.commit_index - n.last_applied)
                (drop (n.last_applied - n.log.snapshot_index) n.log.entries)))
      × ((take_ready n).1.messages ≡ n.outgoing)
      × ((take_ready n).0.last_applied ≡ n.commit_index)
      × ((take_ready n).0.committed ≡ [])
      × ((take_ready n).0.outgoing ≡ [])
  unfolding take_ready maybe_compact
  take_ready-commands = ground (
    arith,
    apply_committed_lem,
    deliver-commands n.log n.last_applied (n.commit_index - n.last_applied),
  )

  pub delivered :
      (take_ready n).1.committed
      ≡ n.committed ++ deliver n.log n.last_applied (n.commit_index - n.last_applied)
  unfolding take_ready maybe_compact
  delivered = ground (arith, apply_committed_lem)

  -- A drain keeps the order, the positions of the log's end and of the commit index, and has
  -- applied everything.
  pub record Drained (m : RaftNode G) : Type 0 where
    pub order : InOrder m
    pub last_applied : m.last_applied ≡ n.commit_index
    pub committed : m.committed ≡ []
    pub end_of_log :
        m.log.snapshot_index + length m.log.entries ≡ n.log.snapshot_index + length n.log.entries
    pub later : (i len : ℕ) → n.commit_index ≤ i → deliver m.log i len ≡ deliver n.log i len

  pub drained_log : RaftLog
  drained_log =
      if leb n.config.snapshot_threshold (n.commit_index - n.log.snapshot_index)
      then Log.compact n.commit_index n.log
      else n.log

  pub take_ready_node :
      (take_ready n).0
      ≡ record n { last_applied = n.commit_index; committed = []; outgoing = []; log = drained_log }
  unfolding take_ready maybe_compact drained_log
  take_ready_node = ground (arith, apply_committed_lem)

  pub get-drained_log : (i : ℕ) → n.commit_index < i → Log.get drained_log i ≡ Log.get n.log i
  unfolding drained_log
  get-drained_log i lt = ground (arith, get-compact n.log n.commit_index v.fits i)

  length-compact :
      (Log.compact n.commit_index n.log).snapshot_index
        + length (Log.compact n.commit_index n.log).entries
      ≡ n.log.snapshot_index + length n.log.entries
  unfolding Log.compact
  length-compact = ground (
    arith,
    last_index_lem n.log v.fits,
    length-drop (n.commit_index - n.log.snapshot_index) n.log.entries,
  )

  compact-le : (Log.compact n.commit_index n.log).snapshot_index ≤ n.commit_index
  unfolding Log.compact
  compact-le = ground arith

  pub take_ready-Drained : Drained (take_ready n).0
  unfolding drained_log
  take_ready-Drained = rw take_ready_node (record {
    order = ground (arith, length-compact, compact-le);
    last_applied = refl;
    committed = refl;
    end_of_log = ground (arith, length-compact);
    later = λ i len h. ground (arith, deliver-compact n.log n.commit_index i len v.fits);
  })

module _ {G : Type 0} where
  pub take_ready-InOrder : (n : RaftNode G) → InOrder n → InOrder (take_ready n).0
  take_ready-InOrder n v = (take_ready-Drained n v).order

  -- For a node in order, a drain, a rise of the commit index within the log, and a second drain
  -- hand over together the commands that a single drain after the rise would: none twice and none
  -- left out, also if the first drain compacts the log.
  pub take_ready-take_ready :
      (n : RaftNode G) (c : ℕ)
      → InOrder n
      → n.commit_index ≤ c
      → c ≤ n.log.snapshot_index + length n.log.entries
      → (take_ready n).1.committed
          ++ (take_ready (record (take_ready n).0 { commit_index = c })).1.committed
        ≡ (take_ready (record n { commit_index = c })).1.committed
  take_ready-take_ready n c v lo hi =
      let d = take_ready-Drained n v in
      let m : RaftNode G = record (take_ready n).0 { commit_index = c } in
      let w : InOrder m = record {
        compacted = d.order.compacted;
        applied = omega (arith, d.last_applied);
        stored = omega (arith, d.end_of_log);
        fits = d.order.fits;
      } in
      let e : n.last_applied + (n.commit_index - n.last_applied) ≡ n.commit_index =
        omega (arith, v.applied) in
      let e' : n.commit_index - n.last_applied + (c - n.commit_index) ≡ c - n.last_applied =
        omega (arith, v.applied) in
      rw
        (
          delivered n v,
          delivered m w,
          delivered (record n { commit_index = c })
              (record {
                compacted = v.compacted;
                applied = omega (arith, v.applied);
                stored = hi;
                fits = v.fits;
              }),
        )
        (rw (d.committed, d.last_applied, d.later n.commit_index (c - n.commit_index) (omega arith))
          (let s =
              deliver-append n.log n.last_applied (n.commit_index - n.last_applied)
                (c - n.commit_index) in
            rw (← e', ← s, e, append_assoc n.committed) refl))
