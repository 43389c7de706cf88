-- ===== src/Client/Sessions.antt =====
-- What the clients of one map see, and how the tasks of src/server.rs, serve_clients, serve them.
use ferrium.Common.{ℕ, zero, suc, ◌≡◌, ◌≢◌, List, [], ◌∷◌, ◌++◌, Bytes, All}
use ferrium.Storage.Engine.{MemoryEngine}
use ferrium.Protocol.Resp.{encode}
use ferrium.Protocol.Command.{Command}
use ferrium.Protocol.Requests.{IsRequest}
use ferrium.Client.Connection.{waiting}
use ferrium.Client.Chunks.{concat}
use ferrium.Client.Pipeline.{wires, Fits}
use ferrium.Client.Lone.{IsData, answer_from}
use ferrium.Client.Serving.{Task, Happening, connects, turns, ticker}

-- A client of the map: the commands that it has still to be answered, and the replies so far.
pub record Session : Type 0 where
  pub commands : List Command
  pub replies : Bytes

-- What happens to the map: a client comes with its commands, the next command of a client is
-- executed, or nothing.
pub data Act : Type 0 where
  comes : List Command → Act
  executes : ℕ → Act
  nothing : Act

module _ (members : List (Bytes × Bytes)) where
  unfoldable pub execute : Session → MemoryEngine → Session × MemoryEngine
  execute s e = elim s.commands [
    | [] ↦ (s, e)
    | c ∷ cs ↦
        let (reply, e') = answer_from members c e in
        (record { commands = cs; replies = s.replies ++ encode reply }, e')
  ]

  unfoldable pub execute_of : ℕ → List Session → MemoryEngine → List Session × MemoryEngine
  execute_of k [] e = ([], e)
  execute_of zero (s ∷ ss) e = let (s', e') = execute s e in (s' ∷ ss, e')
  execute_of (suc k) (s ∷ ss) e = let (ss', e') = execute_of k ss e in (s ∷ ss', e')

  unfoldable pub act : Act → List Session × MemoryEngine → List Session × MemoryEngine
  act (comes cs) (ss, e) = (ss ++ record { commands = cs; replies = [] } ∷ [], e)
  act (executes k) (ss, e) = execute_of k ss e
  act nothing s = s

  unfoldable pub perform : List Act → List Session × MemoryEngine → List Session × MemoryEngine
  perform [] s = s
  perform (a ∷ acts) s = perform acts (act a s)

-- The requests of a client, as the replies need them.
abbrev pub AreAnswerable : List Command → Type 0
AreAnswerable cs = All IsRequest cs × All Fits cs × All IsData cs

-- A task serves a session: it has written the replies, and what it has still to handle and to read
-- are the requests of the commands left.
pub record Serves (t : Task) (s : Session) : Type 0 where
  pub written : t.written ≡ s.replies
  pub waits : t.progress ≡ waiting
  pub left : t.buf ++ concat t.chunks ≡ wires s.commands
  pub some_bytes : All (λ c. c ≢ []) t.chunks
  pub answerable : AreAnswerable s.commands

abbrev pub AllServe : List Task → List Session → Type 0
AllServe [] [] = Unit
AllServe (t ∷ ts) (s ∷ ss) = Serves t s × AllServe ts ss
AllServe [] (s ∷ ss) = ⊥
AllServe (t ∷ ts) [] = ⊥

-- The acts that explain what happens: for a client that connects, one that comes with the commands
-- whose requests it sends; for a turn, a command of that client is executed or nothing; for a tick,
-- nothing.
abbrev pub Explains : List Happening → List Act → Type 0
Explains [] [] = Unit
Explains (connects chunks ∷ xs) (comes cs ∷ acts) = (concat chunks ≡ wires cs) × Explains xs acts
Explains (turns k ∷ xs) (executes j ∷ acts) = (j ≡ k) × Explains xs acts
Explains (turns k ∷ xs) (nothing ∷ acts) = Explains xs acts
Explains (ticker ∷ xs) (nothing ∷ acts) = Explains xs acts
Explains _ _ = ⊥

-- A client that connects sends requests, in nonempty pieces.
abbrev pub IsScripted : Happening → Type 0
IsScripted (connects chunks) =
    (cs : List Command) × (concat chunks ≡ wires cs) × All (λ c. c ≢ []) chunks × AreAnswerable cs
IsScripted (turns k) = Unit
IsScripted ticker = Unit
