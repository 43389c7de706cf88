-- ===== src/Examples/Lone.antt =====
-- The theorems on a node that is alone, at a concrete input: the leader of a cluster of one.
use ferrium.Common.{
  ℕ, ◌++◌, List, [], ◌∷◌, Bytes, bytes, take, drop, str_eq, lookup, insert, ◌≡◌, refl, arith,
}
use ferrium.Storage.Engine
use ferrium.Storage.Apply
use ferrium.Storage.Apply.{WriteCommand}
use ferrium.Raft.Node
use ferrium.Raft.Single.{IsSettled}
use ferrium.Raft.Startup.{ticks, new-IsSettled}
use ferrium.Sim.{sim_config}
use ferrium.Protocol.Decimal.{decimal, digits}
use ferrium.Protocol.Utf8.{is_utf8_from}
use ferrium.Protocol.Resp.{crlf, encode, encode_items}
use ferrium.Protocol.Command.{Command, get, set}
use ferrium.Protocol.Requests.{request, IsRequest}
use ferrium.Server.{Driver, ticked, round}
use ferrium.Server.Single.{IsIdle}
use ferrium.Client.Connection.{handle_connection}
use ferrium.Client.Pipeline.{wire, wires}
use ferrium.Client.Lone.{answer_from, answers_from, lone_handle}
use ferrium.Client.Serving.{Happening, connects, turns, ticker, serve_clients}
use ferrium.Client.Several.{Explained, serve_clients-started}
use ferrium.Client.Started.{handle_connection-started}
use ferrium.Server.Start.{members, initial_driver, tick_rounds}
use ferrium.Examples.Nets.{config1}
use ferrium.Examples.Nodes.{fixed}
use ferrium.Examples.Driver.{lengths, driver1, some_bytes}
use ferrium.Examples.Sims.{elected}

abbrev driver0 : Driver ℕ
driver0 = record driver1 { node = elected; cluster_size = 1 }

elected-IsSettled : IsSettled elected
elected-IsSettled = record {
  led = refl;
  alone = refl;
  drained = refl;
  whole = refl;
  applied = refl;
}

driver0-IsIdle : IsIdle driver0
driver0-IsIdle = record { node = elected-IsSettled; answered = refl }

abbrev writes : List (WriteCommand × ℕ)
writes = (Apply.set (bytes "k") (bytes "v"), 4) ∷ (Apply.del (bytes "k" ∷ []), 5) ∷ []

abbrev set_get : List Command
set_get = set (bytes "k") (bytes "v") ∷ get (bytes "k") ∷ []

-- The client reads what it has written.
answers_from-set_get :
    (answers_from [] set_get driver0.storage).0
    ≡ bytes "+OK" ++ crlf ++ bytes "$1" ++ crlf ++ bytes "v" ++ crlf
unfolding answers_from answer_from encode Engine.get lookup Engine.set insert str_eq decimal digits
answers_from-set_get = refl

abbrev chunks : List Bytes
chunks = take 9 (wires set_get) ∷ drop 9 (wires set_get) ∷ []

-- A fresh node whose timeout is between 5 and 10 ticks, after 10 of them.
new-IsSettled_example : IsSettled (ticks fixed 10 (Node.new fixed (bytes "n0") [] (sim_config 42)))
new-IsSettled_example =
    new-IsSettled fixed (bytes "n0") (sim_config 42) 10 (omega arith) (omega arith) (omega arith)
      (omega arith)

-- A node that is started without peers, after 20 ticks.
handle_connection-started_example :
    (handle_connection
      (λ f. [])
      (lone_handle fixed lengths (members (λ a. a.host) config1) (λ d. 2))
      chunks
      []
      (tick_rounds fixed lengths 20 (initial_driver fixed config1))).written
    ≡ (answers_from (members (λ a. a.host) config1) set_get Engine.new).0
unfolding wires wire encode encode_items IsRequest is_utf8_from decimal digits request
handle_connection-started_example =
    handle_connection-started fixed lengths some_bytes (λ a. a.host) (λ f. []) (λ d. 2) config1 20
      set_get chunks refl (omega arith) (omega arith) refl ((λ e. cc), ((λ e. cc), tt))
      (refl, (refl, tt))
      (
        (omega arith, (omega arith, (omega arith, (omega arith, tt)))),
        ((omega arith, (omega arith, (omega arith, tt))), tt),
      )
      (tt, (tt, tt)) (omega arith)

-- One client writes a key that another one reads; their tasks take turns.
abbrev two_clients : List Happening
two_clients =
    connects (wires (set (bytes "k") (bytes "v") ∷ []) ∷ [])
    ∷ connects (wires (get (bytes "k") ∷ []) ∷ [])
    ∷ turns 0
    ∷ turns 1
    ∷ ticker
    ∷ turns 0
    ∷ turns 1
    ∷ []

serve_clients-started_example :
    Explained fixed lengths
      (members (λ a. a.host) config1)
      (λ f. [])
      (λ d. 1)
      some_bytes
      two_clients
      []
      Engine.new
      (serve_clients
        (λ f. [])
        (lone_handle fixed lengths (members (λ a. a.host) config1) (λ d. 1))
        (round fixed lengths ticked)
        two_clients
        ([], tick_rounds fixed lengths 20 (initial_driver fixed config1)))
unfolding wires wire encode encode_items IsRequest is_utf8_from decimal digits request
serve_clients-started_example =
    serve_clients-started fixed lengths some_bytes (λ a. a.host) (λ f. []) (λ d. 1) config1 20
      two_clients refl (omega arith) (omega arith)
      (
        (
          set (bytes "k") (bytes "v") ∷ [],
          refl,
          ((λ e. cc), tt),
          (
            (refl, tt),
            ((omega arith, (omega arith, (omega arith, (omega arith, tt)))), tt),
            (tt, tt),
          ),
        ),
        (
          (
            get (bytes "k") ∷ [],
            refl,
            ((λ e. cc), tt),
            ((refl, tt), ((omega arith, (omega arith, (omega arith, tt))), tt), (tt, tt)),
          ),
          (tt, (tt, (tt, (tt, (tt, tt))))),
        ),
      )
      (omega arith)
