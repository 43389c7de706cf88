-- ===== src/Server/Keys.antt =====
-- src/server.rs: the indices that clients wait for, and what handing over commands leaves of them.
use ferrium.Common.{
  ℕ, zero, suc, ◌+◌, ◌-◌, ◌≤◌, ◌<◌, ◌≡◌, ◌≢◌, sym, ap, ◌∙◌, arith, true, false, if_intro, ◌==◌,
  Option, none, some, List, [], ◌∷◌, ◌++◌, Bytes, All, ℕ_discrete, dec_lt,
}
use mathlib.Core.Option
use mathlib.Core.Path.{subst}
use ferrium.Raft.Log
use ferrium.Raft.Log.{LogEntry, RaftLog}
use ferrium.Raft.Node.{RaftNode, Committed, command, snapshot}
use ferrium.Raft.Node.Replicate.{pushed}
use ferrium.Raft.Node.Drive.{take_ready}
use ferrium.Raft.Ready.{InOrder, deliver, delivered, get-drained_log, take_ready_node}
use ferrium.Raft.Handed.{command_at}
use ferrium.Storage.Apply.{Codec}
use ferrium.Server.{
  Driver, Sender, Waiters, push_waiter, remove_waiters, resolve, apply_entry, apply_all,
}

-- The index of a waiter is not that of the command.
abbrev pub IsOther : ℕ → Committed → Type 0
IsOther k (command i c) = k ≢ i
IsOther k (snapshot entries) = Unit

All-split : {A : Type 0} (P : A → Type 0) (xs ys : List A) → All P (xs ++ ys) → All P xs × All P ys
All-split P [] ys h = (tt, h)
All-split P (x ∷ xs) ys (p, h) = let (l, r) = All-split P xs ys h in ((p, l), r)

-- A command that stands in the log, and is not empty, is pushed.
pushed-IsOther :
    (k : ℕ) (c : Bytes) (o : Option LogEntry)
    → Option.map (λ (e : LogEntry). e.command) o ≡ some c
    → c ≢ []
    → All (IsOther k) (pushed k o)
    → ⊥
unfolding pushed
pushed-IsOther k c none e n h = cc
pushed-IsOther k c (some entry) e n h = ground (arith, h)

-- It is delivered, if its index is in the range.
deliver-IsOther :
    (log : RaftLog) (i len k : ℕ) (c : Bytes)
    → i < k
    → k ≤ i + len
    → command_at log k ≡ some c
    → c ≢ []
    → All (IsOther k) (deliver log i len)
    → ⊥
unfolding deliver
deliver-IsOther log i zero k c lo hi e n h = omega arith
deliver-IsOther log i (suc len) k c lo hi e n h =
    let (first, later) = All-split (IsOther k) (pushed (i + 1) (Log.get log (i + 1))) _ h in
    elim (ℕ_discrete k (i + 1)) [
      | yes same ↦
          pushed-IsOther k c (Log.get log k) e n
            (subst (λ j. All (IsOther k) (pushed j (Log.get log j))) (sym same) first)
      | no other ↦ deliver-IsOther log (i + 1) len k c (omega arith) (omega arith) e n later
    ]

ne_of : (j i : ℕ) → (j == i) ≡ false → j ≢ i
ne_of j i e p = ground arith

eq_of : (j i : ℕ) → (j == i) ≡ true → j ≡ i
eq_of j i e = ground arith

-- Each index has one place among the waiters.
abbrev pub AreDistinct : Waiters → Type 0
AreDistinct [] = Unit
AreDistinct ((i, ws) ∷ rest) = All (λ x. x.0 ≢ i) rest × AreDistinct rest

module _ (P : ℕ → Type 0) where
  abbrev pub AllKeys : Waiters → Type 0
  AllKeys = All (λ x. P x.0)

  pub push_waiter-AllKeys :
      (i : ℕ) (w : Sender) (m : Waiters) → P i → AllKeys m → AllKeys (push_waiter i w m)
  unfolding push_waiter
  push_waiter-AllKeys i w [] p h = (p, tt)
  push_waiter-AllKeys i w ((j, ws) ∷ rest) p (q, h) =
      if_intro AllKeys (j == i) _ _ (λ _. (q, h)) λ _. (q, push_waiter-AllKeys i w rest p h)

  remove_waiters-AllKeys : (i : ℕ) (m : Waiters) → AllKeys m → AllKeys (remove_waiters i m).1
  unfolding remove_waiters
  remove_waiters-AllKeys i [] h = tt
  remove_waiters-AllKeys i ((j, ws) ∷ rest) (q, h) =
      if_intro (λ (r : List Sender × Waiters). AllKeys r.1) (j == i) _ _ (λ _. h)
        λ _. (q, remove_waiters-AllKeys i rest h)

pub push_waiter-AreDistinct :
    (i : ℕ) (w : Sender) (m : Waiters) → AreDistinct m → AreDistinct (push_waiter i w m)
unfolding push_waiter
push_waiter-AreDistinct i w [] d = (tt, tt)
push_waiter-AreDistinct i w ((j, ws) ∷ rest) (n, d) =
    if_intro AreDistinct (j == i) _ _ (λ _. (n, d))
      λ e. (
        push_waiter-AllKeys (λ k. k ≢ j) i w rest (λ p. ne_of j i e (sym p)) n,
        push_waiter-AreDistinct i w rest d,
      )

remove_waiters-AreDistinct :
    (i : ℕ) (m : Waiters)
    → AreDistinct m
    → AreDistinct (remove_waiters i m).1 × All (λ x. x.0 ≢ i) (remove_waiters i m).1
unfolding remove_waiters
remove_waiters-AreDistinct i [] d = (tt, tt)
remove_waiters-AreDistinct i ((j, ws) ∷ rest) (n, d) =
    let (d', o) = remove_waiters-AreDistinct i rest d in
    if_intro (λ (r : List Sender × Waiters). AreDistinct r.1 × All (λ x. x.0 ≢ i) r.1) (j == i) _ _
      (λ e. (d, rw (sym (eq_of j i e)) n))
      λ e. ((remove_waiters-AllKeys (λ k. k ≢ j) i rest n, d'), (ne_of j i e, o))

pub All-map :
    {A : Type 0} (P Q : A → Type 0) (xs : List A) → ((x : A) → P x → Q x) → All P xs → All Q xs
All-map P Q [] f h = tt
All-map P Q (x ∷ xs) f (p, h) = (f x p, All-map P Q xs f h)

All-both :
    {A : Type 0} (P Q : A → Type 0) (xs : List A) → All P xs → All Q xs → All (λ x. P x × Q x) xs
All-both P Q [] h k = tt
All-both P Q (x ∷ xs) (p, h) (q, k) = ((p, q), All-both P Q xs h k)

-- The waiters that are left behind the commands that were handed over.
pub record Left {G : Type 0} (P : ℕ → Type 0) (cs : List Committed) (d : Driver G) : Type 0 where
  pub keys : AllKeys (λ k. P k × All (IsOther k) cs) d.waiters
  pub distinct : AreDistinct d.waiters

module _ (C : Codec) {G : Type 0} where
  pub apply_all-Left :
      (P : ℕ → Type 0) (cs : List Committed) (d : Driver G)
      → AllKeys P d.waiters
      → AreDistinct d.waiters
      → Left P cs (apply_all C cs d)
  unfolding apply_all apply_entry resolve
  apply_all-Left P [] d h n = record {
    keys = All-map (λ x. P x.0) _ d.waiters (λ x p. (p, tt)) h;
    distinct = n;
  }
  apply_all-Left P (command i c ∷ cs) d h n =
      let (n', o) = remove_waiters-AreDistinct i d.waiters n in
      let r =
        apply_all-Left (λ k. P k × (k ≢ i)) cs (apply_entry C (command i c) d)
          (All-both (λ x. P x.0) (λ x. x.0 ≢ i) _ (remove_waiters-AllKeys P i d.waiters h) o) n' in
      record { keys = All-map _ _ _ (λ x p. (p.0.0, (p.0.1, p.1))) r.keys; distinct = r.distinct }
  apply_all-Left P (snapshot entries ∷ cs) d h n =
      let r = apply_all-Left P cs (apply_entry C (snapshot entries) d) h n in
      record { keys = All-map _ _ _ (λ x p. (p.0, (tt, p.1))) r.keys; distinct = r.distinct }

module _ {G : Type 0} where
  -- A waiter's index is behind the applied ones, and a command stands there.
  abbrev pub IsStored : RaftNode G → ℕ → Type 0
  IsStored n k = (n.last_applied < k) × ((c : Bytes) × (command_at n.log k ≡ some c) × (c ≢ []))

  pub take_ready-IsStored :
      (n : RaftNode G) (k : ℕ)
      → InOrder n
      → n.committed ≡ []
      → IsStored n k
      → All (IsOther k) (take_ready n).1.committed
      → (n.commit_index < k) × IsStored (take_ready n).0 k
  take_ready-IsStored n k v e (lo, (c, at_k, some_bytes)) h =
      let handed : All (IsOther k)
          (deliver n.log n.last_applied (n.commit_index - n.last_applied)) =
        subst (All (IsOther k))
          (delivered n v
            ∙ ap (λ cs. cs ++ deliver n.log n.last_applied (n.commit_index - n.last_applied)) e)
          h in
      elim (dec_lt n.commit_index k) [
        | yes behind ↦ (
          behind,
          rw (take_ready_node n v) (
            behind,
            (
              c,
              ap (Option.map (λ (x : LogEntry). x.command)) (get-drained_log n v k behind) ∙ at_k,
              some_bytes,
            ),
          ),
        )
        | no committed ↦ absurd (
            deliver-IsOther n.log n.last_applied (n.commit_index - n.last_applied) k c lo
              (omega (arith, v.applied)) at_k some_bytes handed)
      ]
