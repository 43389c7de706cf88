-- ===== src/Client/Started.antt =====
-- src/net/client.rs over src/server.rs on a node that is started alone.
use ferrium.Common.{
  ℕ, ◌+◌, ◌≤◌, ◌<◌, ◌≡◌, ◌≢◌, ap, ◌∙◌, arith, List, [], length, u64_mod, Bytes, All,
}
use ferrium.Raft.Node.{Rand}
use ferrium.Storage.Engine
use ferrium.Server.{Driver}
use ferrium.Storage.Apply.{WriteCommand, Codec}
use ferrium.Protocol.Resp.{Frame}
use ferrium.Protocol.Command.{Command}
use ferrium.Protocol.Requests.{IsRequest}
use ferrium.Server.Start.{members, initial_driver, tick_rounds, tick_rounds-IsIdle}
use ferrium.Net.Config.{SocketAddr, Config}
use ferrium.Client.Connection.{handle_connection}
use ferrium.Client.Chunks.{concat}
use ferrium.Client.Pipeline.{wires, Fits}
use ferrium.Client.Lone.{IsData, answers_from, lone_handle, handle_connection-answers_from}

module _ (R : Rand) (C : Codec) (some_bytes : (cmd : WriteCommand) → C.encode cmd ≢ []) where
  -- A node that is configured without peers and has seen twelve ticks or more, each in a round of
  -- its driver, answers the requests that its first client sends, in whatever nonempty pieces, in
  -- order: PING with its payload or PONG, GET with the value that the SETs and DELs before it
  -- leave under the key or null, SET with OK, CLUSTER MEMBERS with the members, COMMAND with an
  -- empty array, and DEL always with 1, whether or not its keys are there. Before each SET or DEL
  -- any number of ticks has a round. The conditions: the driver handles each proposal in a round
  -- of its own, and no other event than these; keys are UTF-8, a DEL has a key, the number of
  -- words and the length of each fit an i64, no request is CLUSTER STATUS, there are fewer than
  -- 2^64 - 1, and no encoded command is empty.
  pub handle_connection-started :
      (text : SocketAddr → Bytes) (debug : Frame → Bytes) (due : Driver (R.StdRng) → ℕ) (c : Config)
      (k : ℕ) (cs : List Command) (chunks : List Bytes)
      → c.peers ≡ []
      → 12 ≤ k
      → k < u64_mod
      → concat chunks ≡ wires cs
      → All (λ b. b ≢ []) chunks
      → All IsRequest cs
      → All Fits cs
      → All IsData cs
      → length cs + 1 < u64_mod
      → (handle_connection debug
          (lone_handle R C (members text c) due)
          chunks
          []
          (tick_rounds R C k (initial_driver R c))).written
        ≡ (answers_from (members text c) cs Engine.new).0
  handle_connection-started text debug due c k cs chunks alone lo hi e n r f s room =
      let (idle, short, empty) = tick_rounds-IsIdle R C c k alone lo hi in
      let (written, stored) =
        handle_connection-answers_from R C (members text c) due some_bytes debug cs chunks
          (tick_rounds R C k (initial_driver R c)) e n r f s idle (omega (arith, short)) in
      written ∙ ap (λ m. (answers_from (members text c) cs m).0) empty
