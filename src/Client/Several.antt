-- ===== src/Client/Several.antt =====
-- Several clients of a node that is alone, src/server.rs, serve_clients, and src/net/client.rs, against
-- one map on which their commands are executed one at a time.
use ferrium.Common.{
  ℕ, ◌+◌, ◌≤◌, ◌<◌, ◌≡◌, ◌≢◌, refl, ◌∙◌, arith, Bool, true, false, List, [], ◌∷◌, ◌++◌, length,
  u64_mod, Bytes, All,
}
use mathlib.Core.Path.{subst}
use ferrium.Raft.Node.{Rand}
use ferrium.Raft.Single.{end_of_log}
use ferrium.Storage.Engine.{MemoryEngine}
use ferrium.Storage.Apply.{WriteCommand, Codec}
use ferrium.Protocol.Resp.{Frame}
use ferrium.Server.{Driver, ticked, round}
use ferrium.Client.Lone.{lone_handle}
use ferrium.Client.Serving.{
  Task, spawned, turn_of, Happening, connects, turns, ticker, happen, serve_clients,
}
use ferrium.Client.Sessions.{
  Session, Act, comes, nothing, act, perform, Serves, AllServe, Explains, IsScripted,
}
use ferrium.Client.Turns.{Refines, Stepped, acted, turn_of-Stepped}
use ferrium.Server.Start.{members, initial_driver, round-StaysIdle, tick_rounds, tick_rounds-IsIdle}
use ferrium.Net.Config.{SocketAddr, Config}
use ferrium.Storage.Engine

acted-Explains :
    (b : Bool) (k : ℕ) (xs : List Happening) (acts : List Act)
    → Explains xs acts
    → Explains (turns k ∷ xs) (acted b k ∷ acts)
acted-Explains true k xs acts h = (refl, h)
acted-Explains false k xs acts h = h

module _ (R : Rand) (C : Codec) (members : List (Bytes × Bytes)) (debug : Frame → Bytes)
    (due : Driver (R.StdRng) → ℕ) (some_bytes : (cmd : WriteCommand) → C.encode cmd ≢ []) where
  open R use {StdRng}

  AllServe-append :
      (ts : List Task) (ss : List Session) (t : Task) (s : Session)
      → AllServe ts ss
      → Serves t s
      → AllServe (ts ++ t ∷ []) (ss ++ s ∷ [])
  AllServe-append [] [] t s vs v = (v, tt)
  AllServe-append [] (s' ∷ ss) t s vs v = absurd vs
  AllServe-append (t' ∷ ts) [] t s vs v = absurd vs
  AllServe-append (t' ∷ ts) (s' ∷ ss) t s (v', vs) v = (v', AllServe-append ts ss t s vs v)

  pub record Explained (xs : List Happening) (ss : List Session) (e : MemoryEngine)
      (r : List Task × Driver StdRng) : Type 0 where
    pub acts : List Act
    pub explains : Explains xs acts
    pub refines : Refines R C members debug due some_bytes r.0 r.1 (perform members acts (ss, e))

  serve_clients-Explained :
      (xs : List Happening) (ts : List Task) (ss : List Session) (e : MemoryEngine)
      (d : Driver StdRng)
      → All IsScripted xs
      → Refines R C members debug due some_bytes ts d (ss, e)
      → end_of_log d.node + length xs + 1 < u64_mod
      → Explained xs ss e
          (serve_clients debug (lone_handle R C members due) (round R C ticked) xs (ts, d))
  unfolding serve_clients happen perform act
  serve_clients-Explained [] ts ss e d sc v room = record { acts = []; explains = tt; refines = v }
  serve_clients-Explained (connects chunks ∷ xs) ts ss e d ((cs, same, n, a), sc) v room =
      let t : Task = spawned chunks in
      let s : Session = record { commands = cs; replies = [] } in
      let serves : Serves t s = record {
        written = refl;
        waits = refl;
        left = same;
        some_bytes = n;
        answerable = a;
      } in
      let r =
        serve_clients-Explained xs (ts ++ t ∷ []) (ss ++ s ∷ []) e d sc
          (record {
            serve = AllServe-append ts ss t s v.serve serves;
            storage = v.storage;
            idle = v.idle;
          })
          (omega arith) in
      record { acts = comes cs ∷ r.acts; explains = (same, r.explains); refines = r.refines }
  serve_clients-Explained (turns k ∷ xs) ts ss e d (h, sc) v room =
      let (b, w) =
        turn_of-Stepped R C members debug due some_bytes k ts ss d v.serve v.idle (omega arith) in
      let w' =
        subst
          (λ x.
            Stepped R C members debug due some_bytes d
              (turn_of debug (lone_handle R C members due) k ts d)
              (act members (acted b k) (ss, x)))
          v.storage w in
      let s' = act members (acted b k) (ss, e) in
      let r =
        serve_clients-Explained xs _ s'.0 s'.1
          (turn_of debug (lone_handle R C members due) k ts d).1 sc w'.refines
          (omega (arith, w'.grown)) in
      record {
        acts = acted b k ∷ r.acts;
        explains = acted-Explains b k xs r.acts r.explains;
        refines = r.refines;
      }
  serve_clients-Explained (ticker ∷ xs) ts ss e d (h, sc) v room =
      let s = round-StaysIdle R C d v.idle (omega arith) in
      let r =
        serve_clients-Explained xs ts ss e (round R C ticked d) sc
          (record { serve = v.serve; storage = s.storage ∙ v.storage; idle = s.idle })
          (omega (arith, s.end_of_log)) in
      record { acts = nothing ∷ r.acts; explains = r.explains; refines = r.refines }

module _ (R : Rand) (C : Codec) (some_bytes : (cmd : WriteCommand) → C.encode cmd ≢ []) where
  -- Several clients of a node that is configured without peers and has seen twelve ticks or more:
  -- however they connect, their tasks take turns and ticks have rounds in between, and before a
  -- turn's proposal, all commands are executed on one map, empty at first, one at a time and each
  -- client's in order, and each client has been written what its commands are answered by that
  -- map: as it is then for a GET, OK for a SET, and always 1 for a DEL, whether or not its keys
  -- are there. A turn executes one command of its client or none, a tick none, and what a client
  -- is still to be answered are the requests in its buffer and in reads to come. The engine is
  -- that map. The conditions: a turn, with the rounds of the driver that it waits for, is one
  -- step, and the driver meets no other events than these; clients send requests, in nonempty
  -- pieces, other than CLUSTER STATUS, with keys in UTF-8, a key for each DEL, and words whose
  -- number and lengths fit an i64; there are fewer than 2^64 - 1 steps, and no encoded command is
  -- empty.
  pub serve_clients-started :
      (text : SocketAddr → Bytes) (debug : Frame → Bytes) (due : Driver (R.StdRng) → ℕ) (c : Config)
      (k : ℕ) (xs : List Happening)
      → c.peers ≡ []
      → 12 ≤ k
      → k < u64_mod
      → All IsScripted xs
      → length xs + 1 < u64_mod
      → Explained R C (members text c) debug due some_bytes xs [] Engine.new (
          serve_clients debug
            (lone_handle R C (members text c) due)
            (round R C ticked)
            xs
            ([], tick_rounds R C k (initial_driver R c)))
  serve_clients-started text debug due c k xs alone lo hi sc room =
      let (idle, short, empty) = tick_rounds-IsIdle R C c k alone lo hi in
      serve_clients-Explained R C (members text c) debug due some_bytes xs [] [] Engine.new _ sc
        (record { serve = tt; storage = empty; idle = idle }) (omega (arith, short))
