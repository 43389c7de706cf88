-- ===== src/Raft/Handed.antt =====
-- What a drain of src/raft/node.rs hands over stands in the log, and what is left there is as before.
use ferrium.Common.{
  ℕ, zero, suc, ◌+◌, ◌-◌, ◌≡◌, ◌≤◌, refl, sym, ap, length-append, arith, if_intro, leb, Option,
  none, some, List, [], ◌∷◌, ◌++◌, Bytes, All, u64,
}
use mathlib.Core.Path.{subst}
use mathlib.Core.Option
use ferrium.Raft.Log
use ferrium.Raft.Log.{LogEntry, RaftLog}
use ferrium.Raft.Log.Index.{Fits, last_index_lem}
use ferrium.Raft.Log.Compact.{get-append, get-compact, last_index-compact}
use ferrium.Raft.Node.{RaftNode, Committed, command, snapshot}
use ferrium.Raft.Node.Replicate.{
  pushed, is_empty, apply_one, apply_loop, maybe_compact, apply_committed,
}
use ferrium.Raft.Node.Drive.{take_ready}

-- The command that a log has at an index.
abbrev pub command_at : RaftLog → ℕ → Option Bytes
command_at log i = Option.map (λ (e : LogEntry). e.command) (Log.get log i)

-- What is handed over stands in the log at its index.
abbrev pub IsLogged : RaftLog → Committed → Type 0
IsLogged log (command i c) = command_at log i ≡ some c
IsLogged log (snapshot entries) = Unit

pub All-append :
    {A : Type 0} (P : A → Type 0) (xs ys : List A) → All P xs → All P ys → All P (xs ++ ys)
All-append P [] ys h h' = h'
All-append P (x ∷ xs) ys (p, h) h' = (p, All-append P xs ys h h')

pushed-IsLogged :
    (log : RaftLog) (i : ℕ) (o : Option LogEntry)
    → Log.get log i ≡ o
    → All (IsLogged log) (pushed i o)
unfolding pushed
pushed-IsLogged log i none e = tt
pushed-IsLogged log i (some entry) e =
    if_intro (λ cs. All (IsLogged log) cs) (is_empty entry.command) _ _ (λ _. tt)
      λ _. (ap (Option.map (λ (x : LogEntry). x.command)) e, tt)

-- What compaction leaves of a log stands where it stood.
command_at-compact :
    (log : RaftLog) (k i : ℕ) (c : Bytes)
    → Fits log
    → command_at (Log.compact k log) i ≡ some c
    → command_at log i ≡ some c
unfolding Log.compact Log.get
command_at-compact log k i c f h = ground (arith, get-compact log k f i)

-- A log with one more entry.
pub record OneMore (old : RaftLog) (entry : LogEntry) (log : RaftLog) : Type 0 where
  pub last_index : Log.last_index log ≡ Log.last_index old + 1
  pub at_end : command_at log (Log.last_index log) ≡ some entry.command
  pub before_end : (i : ℕ) → i ≤ Log.last_index old → command_at log i ≡ command_at old i

append-OneMore :
    (old : RaftLog) (entry : LogEntry)
    → Fits (Log.append (entry ∷ []) old).0
    → OneMore old entry (Log.append (entry ∷ []) old).0
unfolding Log.append
append-OneMore old entry f =
    let grown = length-append old.entries (entry ∷ []) in
    let room : Fits old = omega arith in
    let log = (Log.append (entry ∷ []) old).0 in
    let longer : Log.last_index log ≡ Log.last_index old + 1 =
      omega (arith, last_index_lem old room, last_index_lem (Log.append (entry ∷ []) old).0 f) in
    record {
      last_index = longer;
      at_end = ground (arith, longer, get-append old (entry ∷ []) (Log.last_index log) f);
      before_end = λ i h. ground (arith, get-append old (entry ∷ []) i f);
    }

pub Appends-OneMore :
    (old : RaftLog) (entry : LogEntry) (log : RaftLog)
    → Fits log
    → log ≡ record old { entries = old.entries ++ entry ∷ [] }
    → OneMore old entry log
unfolding Log.append
Appends-OneMore old entry log f e =
    subst (OneMore old entry) (sym e) (append-OneMore old entry (subst Fits e f))

module _ {G : Type 0} where
  pub record Fetches (n m : RaftNode G) : Type 0 where
    log : m.log ≡ n.log
    pub role : m.role ≡ n.role
    pub logged : All (IsLogged n.log) m.committed

  apply_loop-Fetches :
      (fuel : ℕ) (n : RaftNode G) → All (IsLogged n.log) n.committed → Fetches n (apply_loop fuel n)
  unfolding apply_loop apply_one
  apply_loop-Fetches zero n h = record { log = refl; role = refl; logged = h }
  apply_loop-Fetches (suc fuel) n h =
      let i = u64 (n.last_applied + 1) in
      let r = apply_loop-Fetches fuel (apply_one n) (
        All-append (IsLogged n.log) n.committed (pushed i (Log.get n.log i)) h
          (pushed-IsLogged n.log i (Log.get n.log i) refl)) in
      ground (arith, r)

  -- A drain of a node that has nothing to hand over yet.
  pub record Drains (n m : RaftNode G) (cs : List Committed) : Type 0 where
    pub role : m.role ≡ n.role
    pub committed : m.committed ≡ []
    pub logged : All (IsLogged n.log) cs
    pub last_index : Log.last_index m.log ≡ Log.last_index n.log
    pub kept : (i : ℕ) (c : Bytes) → command_at m.log i ≡ some c → command_at n.log i ≡ some c

  pub take_ready-Drains :
      (n : RaftNode G)
      → n.committed ≡ []
      → Fits n.log
      → Drains n (take_ready n).0 (take_ready n).1.committed
  unfolding take_ready apply_committed maybe_compact
  take_ready-Drains n e f =
      let a = apply_loop (n.commit_index - n.last_applied) n in
      let r = apply_loop-Fetches (n.commit_index - n.last_applied) n (rw e tt) in
      let f' : Fits a.log = rw r.log f in
      let compacts = leb n.config.snapshot_threshold (a.last_applied - n.log.snapshot_index) in
      record {
        role = ground (arith, r.role);
        committed = refl;
        logged = ground (arith, r.logged);
        last_index = ground (arith, r.log, last_index-compact a.log a.last_applied f');
        kept = λ i c h. ground (arith, r.log, command_at-compact a.log a.last_applied i c f');
      }
