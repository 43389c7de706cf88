-- ===== src/Client/Lone.antt =====
-- src/net/client.rs over src/server.rs on a node that is alone: what a client is answered, against
-- one map that its commands read and write in order.
use ferrium.Common.{
  ℕ, ◌+◌, ◌≤◌, ◌<◌, ◌≡◌, ◌≢◌, refl, sym, ap, ◌∙◌, arith, Option, none, some, List, [], ◌∷◌, ◌++◌,
  length, u64_mod, Bytes, bytes, All,
}
use ferrium.Raft.Node.{Rand, RaftNode}
use ferrium.Raft.Single.{end_of_log, take_ready-IsSettled, end_of_log-take_ready}
use ferrium.Storage.Engine
use ferrium.Storage.Engine.{MemoryEngine}
use ferrium.Storage.Apply
use ferrium.Storage.Apply.{WriteCommand, Codec, apply}
use ferrium.Protocol.Decimal.{pos}
use ferrium.Protocol.Resp.{Frame, simple, integer, bulk, null, array, end, encode}
use ferrium.Protocol.Command.{
  Command, ping, get, set, del, cluster_status, cluster_members, command,
}
use ferrium.Protocol.Requests.{IsRequest}
use ferrium.Server.{
  Driver, Sender, ProposeOutcome, committed, request, propose_write, round, status, update_metrics,
}
use ferrium.Server.Single.{IsIdle, sent, round-write}
use ferrium.Server.Start.{tick_rounds, tick_rounds-StaysIdle}
use ferrium.Client.{Handle, member_frames, awaited, propose, dispatch, write_reply}
use ferrium.Client.Connection.{prepend, handle_connection}
use ferrium.Client.Chunks.{concat}
use ferrium.Client.Pipeline.{wires, Fits, replies, handle_connection-wires}

-- What came on a channel that was new.
abbrev pub received : List (Sender × ProposeOutcome) → Option ProposeOutcome
received [] = none
received ((done, outcome) ∷ more) = some outcome

-- A command that reads or writes the map, or asks for what never changes.
abbrev pub IsData : Command → Type 0
IsData cluster_status = ⊥
IsData _ = Unit

module _ (members : List (Bytes × Bytes)) where
  -- The reply to a command, and the map behind it: a DEL is answered 1, whether or not it deletes.
  unfoldable pub answer_from : Command → MemoryEngine → Frame × MemoryEngine
  answer_from (ping (some payload)) e = (bulk payload, e)
  answer_from (ping none) e = (simple (bytes "PONG"), e)
  answer_from (get key) e = (elim (Engine.get e key) [ some value ↦ bulk value | none ↦ null ], e)
  answer_from (set key value) e = (simple (bytes "OK"), Engine.set key value e)
  answer_from (del keys) e = (integer (pos 1), (apply (Apply.del keys) e).0)
  answer_from cluster_status e = (null, e)
  answer_from cluster_members e = (array (member_frames members), e)
  answer_from command e = (array end, e)

  unfoldable pub answers_from : List Command → MemoryEngine → Bytes × MemoryEngine
  answers_from [] e = ([], e)
  answers_from (c ∷ cs) e =
      let (reply, e') = answer_from c e in
      let (more, e'') = answers_from cs e' in (encode reply ++ more, e'')

module _ (R : Rand) (C : Codec) (members : List (Bytes × Bytes)) where
  open R use {StdRng}

  -- The handle of a node whose driver answers each request in the round that it brings about, as a
  -- lone leader's does; before that round come the rounds of as many ticks as are due.
  unfoldable pub lone_handle : (Driver StdRng → ℕ) → Handle (Driver StdRng)
  lone_handle due = record {
    storage = λ d. d.storage;
    on_metrics = λ f d. record d { metrics = f d.metrics };
    members = members;
    send_propose = λ cmd d.
        let d0 = tick_rounds R C (due d) d in
        let d' = round R C (request (propose_write cmd 0)) (record d0 { outcomes = [] }) in
        some (received d'.outcomes, d');
    send_status = λ d. some (some (status d), d);
  }

  -- What a command does to a lone leader's driver.
  pub record Answered (c : Command) (d : Driver StdRng) (r : Frame × Driver StdRng) : Type 0 where
    pub reply : r.0 ≡ (answer_from members c d.storage).0
    pub storage : r.1.storage ≡ (answer_from members c d.storage).1
    pub idle : IsIdle r.1
    pub grown : end_of_log r.1.node ≤ end_of_log d.node + 1

  module _ (due : Driver StdRng → ℕ) (some_bytes : (cmd : WriteCommand) → C.encode cmd ≢ []) where
    propose-committed :
        (cmd : WriteCommand) (d : Driver StdRng) (v : IsIdle (tick_rounds R C (due d) d))
        (room : end_of_log (tick_rounds R C (due d) d).node + 2 < u64_mod)
        → propose (lone_handle due) cmd d ≡ (
          committed,
          update_metrics (
              sent R C cmd 0
                (record (tick_rounds R C (due d) d) { outcomes = [] })
                (record { node = v.node; answered = v.answered })
                room
                (some_bytes cmd)),
        )
    unfolding propose awaited lone_handle update_metrics
    propose-committed cmd d v room =
        ap (λ d'. awaited (some (received d'.outcomes, d')) d)
          (round-write R C cmd 0 (record (tick_rounds R C (due d) d) { outcomes = [] })
            (record { node = v.node; answered = v.answered }) room (some_bytes cmd))

    write-Answered :
        (c : Command) (done : Frame) (cmd : WriteCommand) (d d0 : Driver StdRng)
        → (answer_from members c d.storage ≡ (done, (apply cmd d0.storage).0))
        → d0.node ≡ d.node
        → IsIdle d0
        → end_of_log d.node + 2 < u64_mod
        → Answered c d (write_reply done (propose (lone_handle due) cmd d0))
    unfolding write_reply update_metrics
    write-Answered c done cmd d d0 told e v room =
        let d1 = tick_rounds R C (due d0) d0 in
        let same = ap (λ (n : RaftNode StdRng). end_of_log n) e in
        let s = tick_rounds-StaysIdle R C (due d0) d0 v (omega (arith, same)) in
        let room1 : end_of_log d1.node + 2 < u64_mod = omega (arith, same, s.end_of_log) in
        let settled = s.idle.node in
        rw (propose-committed cmd d0 s.idle room1) (record {
          reply = sym (ap (λ r. r.0) told);
          storage = ap (λ m. (apply cmd m).0) s.storage ∙ sym (ap (λ r. r.1) told);
          idle = record {
            node = take_ready-IsSettled (C.encode cmd) d1.node settled room1;
            answered = refl;
          };
          grown = omega (
            arith,
            end_of_log-take_ready (C.encode cmd) d1.node settled room1,
            same,
            s.end_of_log,
          );
        })

    pub dispatch-Answered :
        (c : Command) (d : Driver StdRng)
        → IsData c
        → IsIdle d
        → end_of_log d.node + 2 < u64_mod
        → Answered c d (dispatch (lone_handle due) c d)
    unfolding dispatch lone_handle answer_from apply
    dispatch-Answered (ping (some payload)) d s v room = record {
      reply = refl;
      storage = refl;
      idle = v;
      grown = omega arith;
    }
    dispatch-Answered (ping none) d s v room = record {
      reply = refl;
      storage = refl;
      idle = v;
      grown = omega arith;
    }
    dispatch-Answered (get key) d s v room = record {
      reply = refl;
      storage = refl;
      idle = record { node = v.node; answered = v.answered };
      grown = omega arith;
    }
    dispatch-Answered (set key value) d s v room =
        write-Answered (set key value) (simple (bytes "OK")) (Apply.set key value) d _ refl refl
          (record { node = v.node; answered = v.answered }) room
    dispatch-Answered (del keys) d s v room =
        write-Answered (del keys) (integer (pos 1)) (Apply.del keys) d _ refl refl
          (record { node = v.node; answered = v.answered }) room
    dispatch-Answered cluster_status d s v room = elim s [ ]
    dispatch-Answered cluster_members d s v room = record {
      reply = refl;
      storage = refl;
      idle = v;
      grown = omega arith;
    }
    dispatch-Answered command d s v room = record {
      reply = refl;
      storage = refl;
      idle = v;
      grown = omega arith;
    }

    replies-answers_from :
        (cs : List Command) (d : Driver StdRng)
        → All IsData cs
        → IsIdle d
        → end_of_log d.node + length cs + 1 < u64_mod
        → (debug : Frame → Bytes)
        → ((replies debug (lone_handle due) cs d).written ≡ (answers_from members cs d.storage).0)
          × ((replies debug (lone_handle due) cs d).world.storage
              ≡ (answers_from members cs d.storage).1)
    unfolding replies answers_from prepend
    replies-answers_from [] d s v room debug = (refl, refl)
    replies-answers_from (c ∷ cs) d (s, ss) v room debug =
        let r = dispatch-Answered c d s v (omega arith) in
        let grown = r.grown in
        let (written, stored) =
          replies-answers_from cs (dispatch (lone_handle due) c d).1 ss r.idle (omega arith)
            debug in
        (
          ap (λ out. encode (dispatch (lone_handle due) c d).0 ++ out)
                (written ∙ ap (λ e. (answers_from members cs e).0) r.storage)
              ∙ ap
                  (λ x. encode x ++ (answers_from members cs (answer_from members c d.storage).1).0)
                  r.reply,
          stored ∙ ap (λ e. (answers_from members cs e).1) r.storage,
        )

    -- A lone node that leads, has applied and committed its log and has room for the requests, with
    -- nothing pending: requests other than CLUSTER STATUS that a client sends in whatever nonempty
    -- pieces are answered, and leave the engine, as `answers_from` says of the engine before, with any
    -- number of ticks before each proposal, if the driver handles each proposal in a round of its own.
    -- The conditions: keys are UTF-8, a DEL has a key, the number of words and the length of each fit
    -- an i64, and no encoded command is empty.
    pub handle_connection-answers_from :
        (debug : Frame → Bytes) (cs : List Command) (chunks : List Bytes) (d : Driver StdRng)
        → concat chunks ≡ wires cs
        → All (λ c. c ≢ []) chunks
        → All IsRequest cs
        → All Fits cs
        → All IsData cs
        → IsIdle d
        → end_of_log d.node + length cs + 1 < u64_mod
        → ((handle_connection debug (lone_handle due) chunks [] d).written
            ≡ (answers_from members cs d.storage).0)
          × ((handle_connection debug (lone_handle due) chunks [] d).world.storage
              ≡ (answers_from members cs d.storage).1)
    handle_connection-answers_from debug cs chunks d e n r f s v room =
        let same = handle_connection-wires debug (lone_handle due) cs chunks d e n r f in
        let (written, stored) = replies-answers_from cs d s v room debug in
        (ap (λ x. x.written) same ∙ written, ap (λ x. x.world.storage) same ∙ stored)
