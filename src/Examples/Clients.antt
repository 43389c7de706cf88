-- ===== src/Examples/Clients.antt =====
-- The theorems on client connections at a concrete input.
use ferrium.Common.{
  ℕ, none, some, Option, List, [], ◌∷◌, Bytes, bytes, take, drop, ◌≡◌, refl, arith,
}
use ferrium.Protocol.Resp.{Frame, encode, encode_items, crlf}
use ferrium.Protocol.Command.{Command, set, cluster_members}
use ferrium.Protocol.Decimal.{decimal, digits}
use ferrium.Protocol.Utf8.{is_utf8_from}
use ferrium.Protocol.Requests.{request, IsRequest}
use ferrium.Server.{Driver, ProposeOutcome, request as to_driver, propose_write, round}
use ferrium.Client.{Handle}
use ferrium.Client.Connection.{handle_connection, drain}
use ferrium.Client.Chunks.{concat, handle_connection-chunks}
use ferrium.Client.Pipeline.{wire, wires, replies, handle_connection-wires}
use ferrium.Examples.Nodes.{fixed}
use ferrium.Examples.Driver.{lengths, driver1}

-- The answer on a channel.
abbrev outcome : List (ℕ × ProposeOutcome) → Option ProposeOutcome
outcome [] = none
outcome ((done, o) ∷ _) = some o

-- A handle on a driver that handles each request in a round of its own.
abbrev on_driver : Handle (Driver ℕ)
on_driver = record {
  storage = λ d. d.storage;
  on_metrics = λ f d. record d { metrics = f d.metrics };
  members = (bytes "n2", bytes "10.0.0.2:16379") ∷ [];
  send_propose = λ cmd d.
      let d' = round fixed lengths (to_driver (propose_write cmd 7)) d in
      some (outcome d'.outcomes, record d' { outcomes = [] });
  send_status = λ d. none;
}

abbrev debug : Frame → Bytes
debug f = []

abbrev requests : List Command
requests = set (bytes "k") (bytes "v") ∷ cluster_members ∷ []

-- They arrive in two reads, cut in the middle of the first.
abbrev chunks : List Bytes
chunks = take 7 (wires requests) ∷ drop 7 (wires requests) ∷ []

handle_connection-wires_example :
    handle_connection debug on_driver chunks [] driver1 ≡ replies debug on_driver requests driver1
unfolding wires wire encode encode_items IsRequest is_utf8_from decimal digits request
handle_connection-wires_example =
    handle_connection-wires debug on_driver requests chunks driver1 refl
      ((λ e. cc), ((λ e. cc), tt)) (refl, (tt, tt))
      (
        (omega arith, (omega arith, (omega arith, (omega arith, tt)))),
        ((omega arith, (omega arith, (omega arith, tt))), tt),
      )

-- Bytes that are no request: the loop ends with an error, also if they come one by one.
abbrev bad : List Bytes
bad = bytes ":" ∷ bytes "x" ∷ crlf ∷ []

handle_connection-chunks_example :
    handle_connection debug on_driver bad [] driver1 ≡ drain debug on_driver (concat bad) driver1
handle_connection-chunks_example =
    handle_connection-chunks debug on_driver bad [] driver1
      ((λ e. cc), ((λ e. cc), ((λ e. cc), tt)))
