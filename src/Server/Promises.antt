-- ===== src/Server/Promises.antt =====
-- src/server.rs: the waiters of a log, and what applying commands tells them.
use ferrium.Common.{
  ℕ, ◌≤◌, ◌≡◌, refl, sym, ◌∙◌, arith, true, if_intro, ◌==◌, none, some, List, [], ◌∷◌, ◌++◌,
  append_assoc, append-nil, Bytes, All,
}
use ferrium.Raft.Log
use ferrium.Raft.Log.{LogEntry, RaftLog}
use ferrium.Raft.Node.{Committed, command, snapshot}
use ferrium.Storage.Engine
use ferrium.Storage.Engine.{MemoryEngine}
use ferrium.Storage.Apply.{WriteCommand, Codec, apply}
use ferrium.Server.{
  Driver, Sender, Waiters, ProposeOutcome, committed, push_waiter, remove_waiters, send_all,
  resolve, apply_entry, apply_all,
}
use ferrium.Raft.Handed.{command_at, IsLogged, All-append}

==-eq : (j i : ℕ) → (j == i) ≡ true → j ≡ i
==-eq j i e = ground arith

-- What handing over commands makes of the engine.
unfoldable pub replay : Codec → List Committed → MemoryEngine → MemoryEngine
replay C [] e = e
replay C (command index c ∷ cs) e =
    replay C cs (elim (C.decode c) [ some cmd ↦ (apply cmd e).0 | none ↦ e ])
replay C (snapshot entries ∷ cs) e = replay C cs (Engine.restore entries e)

replay-append :
    (C : Codec) (xs ys : List Committed) (e : MemoryEngine)
    → replay C (xs ++ ys) e ≡ replay C ys (replay C xs e)
unfolding replay
replay-append C [] ys e = refl
replay-append C (command index c ∷ xs) ys e = replay-append C xs ys _
replay-append C (snapshot entries ∷ xs) ys e = replay-append C xs ys _

-- `written` is the command that was proposed on each channel: a channel is used once.
module _ (C : Codec) (written : Sender → WriteCommand) where
  -- A waiter's index is in the log, and what stands there, unless compacted away, is its command.
  abbrev pub IsPromised : RaftLog → ℕ → Sender → Type 0
  IsPromised log i w = (c : Bytes) → command_at log i ≡ some c → c ≡ C.encode (written w)

  abbrev pub Awaits : RaftLog → ℕ × List Sender → Type 0
  Awaits log (i, ws) = (i ≤ Log.last_index log) × All (IsPromised log i) ws

  pub push_waiter-Awaits :
      (log : RaftLog) (i : ℕ) (w : Sender) (m : Waiters)
      → i ≤ Log.last_index log
      → IsPromised log i w
      → All (Awaits log) m
      → All (Awaits log) (push_waiter i w m)
  unfolding push_waiter
  push_waiter-Awaits log i w [] le p h = ((le, (p, tt)), tt)
  push_waiter-Awaits log i w ((j, ws) ∷ rest) le p ((le', q), h) =
      if_intro (λ m. All (Awaits log) m) (j == i) _ _
        (λ e. ((le', All-append (IsPromised log j) ws (w ∷ []) q (rw (==-eq j i e) p, tt)), h))
        λ _. ((le', q), push_waiter-Awaits log i w rest le p h)

  remove_waiters-Awaits :
      (log : RaftLog) (i : ℕ) (m : Waiters)
      → All (Awaits log) m
      → All (IsPromised log i) (remove_waiters i m).0 × All (Awaits log) (remove_waiters i m).1
  unfolding remove_waiters
  remove_waiters-Awaits log i [] h = (tt, tt)
  remove_waiters-Awaits log i ((j, ws) ∷ rest) ((le, q), h) =
      let (found, others) = remove_waiters-Awaits log i rest h in
      if_intro (λ (r : List Sender × Waiters). All (IsPromised log i) r.0 × All (Awaits log) r.1)
        (j == i) _ _ (λ e. (rw (sym (==-eq j i e)) q, h)) λ _. (found, ((le, q), others))

  -- A log that says at old indices what the other one said.
  pub All-Awaits :
      (a b : RaftLog) (m : Waiters)
      → Log.last_index a ≤ Log.last_index b
      → ((i : ℕ) (c : Bytes)
          → i ≤ Log.last_index a
          → command_at b i ≡ some c
          → command_at a i ≡ some c)
      → All (Awaits a) m
      → All (Awaits b) m
  All-Awaits a b [] le k h = tt
  All-Awaits a b ((i, ws) ∷ rest) le k ((le', q), h) =
      ((omega arith, kept ws q), All-Awaits a b rest le k h)
    where
      kept : (vs : List Sender) → All (IsPromised a i) vs → All (IsPromised b i) vs
      kept [] p = tt
      kept (v ∷ vs) (p, ps) = ((λ c e. p c (k i c le' e)), kept vs ps)

  -- A client was told that its write is committed, and its command was applied.
  pub record WasApplied (from to : MemoryEngine) (cs : List Committed)
      (told : Sender × ProposeOutcome) : Type 0 where
    pub outcome : told.1 ≡ committed
    pub index : ℕ
    pub before : List Committed
    pub after : List Committed
    pub handed : cs ≡ before ++ command index (C.encode (written told.0)) ∷ after
    pub effect : to ≡ replay C after (apply (written told.0) (replay C before from)).0

  send_all-WasApplied :
      (log : RaftLog) (i : ℕ) (c : Bytes) (from to : MemoryEngine) (before after : List Committed)
      (ws : List Sender)
      → command_at log i ≡ some c
      → to ≡ replay C (before ++ command i c ∷ after) from
      → All (IsPromised log i) ws
      → All (WasApplied from to (before ++ command i c ∷ after)) (send_all ws committed)
  unfolding send_all replay
  send_all-WasApplied log i c from to before after [] l e h = tt
  send_all-WasApplied log i c from to before after (w ∷ ws) l e (p, h) =
      let same = p c l in
      (
        record {
          outcome = refl;
          index = i;
          before = before;
          after = after;
          handed = rw same refl;
          effect =
              e
              ∙ (replay-append C before (command i c ∷ after) from
                  ∙ rw (same, C.decode-encode (written w)) refl);
        },
        send_all-WasApplied log i c from to before after ws l e h,
      )

  module _ {G : Type 0} where
    -- What handing over commands does to the driver: they come from `log`, and `cs` are all of the
    -- round.
    pub record Hands (log : RaftLog) (from to : MemoryEngine) (cs : List Committed)
        (d d' : Driver G) : Type 0 where
      pub news : List (Sender × ProposeOutcome)
      pub outcomes : d'.outcomes ≡ d.outcomes ++ news
      pub told : All (WasApplied from to cs) news
      pub waiters : All (Awaits log) d'.waiters
      pub node : d'.node ≡ d.node

    pub apply_all-Hands :
        (log : RaftLog) (from to : MemoryEngine) (before cs : List Committed) (d : Driver G)
        → All (IsLogged log) cs
        → All (Awaits log) d.waiters
        → to ≡ replay C (before ++ cs) from
        → Hands log from to (before ++ cs) d (apply_all C cs d)
    unfolding apply_all apply_entry resolve
    apply_all-Hands log from to before [] d l h e = record {
      news = [];
      outcomes = sym (append-nil d.outcomes);
      told = tt;
      waiters = h;
      node = refl;
    }
    apply_all-Hands log from to before (command i c ∷ cs) d (l, ls) h e =
        let whole = append_assoc before (command i c ∷ []) cs in
        let (found, others) = remove_waiters-Awaits log i d.waiters h in
        let r =
          apply_all-Hands log from to (before ++ command i c ∷ []) cs
            (apply_entry C (command i c) d) ls others (rw whole e) in
        let answers = send_all (remove_waiters i d.waiters).0 committed in
        record {
          news = answers ++ r.news;
          outcomes = r.outcomes ∙ append_assoc d.outcomes answers r.news;
          told =
              All-append (WasApplied from to (before ++ command i c ∷ cs)) answers r.news
                (send_all-WasApplied log i c from to before cs (remove_waiters i d.waiters).0 l e
                  found)
                (rw (sym whole) r.told);
          waiters = r.waiters;
          node = r.node;
        }
    apply_all-Hands log from to before (snapshot entries ∷ cs) d (l, ls) h e =
        let whole = append_assoc before (snapshot entries ∷ []) cs in
        let r =
          apply_all-Hands log from to (before ++ snapshot entries ∷ []) cs
            (apply_entry C (snapshot entries) d) ls h (rw whole e) in
        record {
          news = r.news;
          outcomes = r.outcomes;
          told = rw (sym whole) r.told;
          waiters = r.waiters;
          node = r.node;
        }

    pub storage-apply_all :
        (cs : List Committed) (d : Driver G) → (apply_all C cs d).storage ≡ replay C cs d.storage
    unfolding apply_all apply_entry resolve replay
    storage-apply_all [] d = refl
    storage-apply_all (command i c ∷ cs) d = storage-apply_all cs (apply_entry C (command i c) d)
    storage-apply_all (snapshot entries ∷ cs) d =
        storage-apply_all cs (apply_entry C (snapshot entries) d)
