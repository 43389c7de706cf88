-- ===== src/Client/Turns.antt =====
-- A turn of a client's task, src/net/client.rs, on a node that is alone.
use ferrium.Common.{
  ℕ, zero, suc, ◌+◌, ◌≤◌, ◌<◌, ◌≡◌, ◌≢◌, refl, sym, ap, ◌∙◌, arith, Bool, true, false, List, [],
  ◌∷◌, ◌++◌, append_assoc, u64_mod, Bytes, All,
}
use mathlib.Core.Path.{subst}
use ferrium.Raft.Node.{Rand}
use ferrium.Raft.Single.{end_of_log}
use ferrium.Storage.Engine.{MemoryEngine}
use ferrium.Storage.Apply.{WriteCommand, Codec}
use ferrium.Protocol.Resp.{
  Frame, array, bulks, encode, Decoded, frame, partial, protocol_error, decode,
}
use ferrium.Protocol.RoundTrip.{decode-encode}
use ferrium.Protocol.Streaming.{AfterMore, decode-append}
use ferrium.Protocol.Command.{Command}
use ferrium.Protocol.Requests.{request}
use ferrium.Server.{Driver}
use ferrium.Server.Single.{IsIdle}
use ferrium.Client.{dispatch}
use ferrium.Client.Connection.{Progress, waiting, hung_up, failed}
use ferrium.Client.Chunks.{concat, decode-partial}
use ferrium.Client.Pipeline.{wire, wires, Fits, request-IsSendable, decode-nil, answer-request}
use ferrium.Client.Lone.{lone_handle, dispatch-Answered}
use ferrium.Client.Serving.{Task, read_buf, turn_decoded, turn_at, turn, turn_of}
use ferrium.Client.Sessions.{
  Session, Act, executes, nothing, execute, execute_of, act, Serves, AllServe,
}

-- The act that a turn of the task at an index amounts to.
abbrev pub acted : Bool → ℕ → Act
acted true k = executes k
acted false k = nothing

module _ (R : Rand) (C : Codec) (members : List (Bytes × Bytes)) (debug : Frame → Bytes)
    (due : Driver (R.StdRng) → ℕ) (some_bytes : (cmd : WriteCommand) → C.encode cmd ≢ []) where
  open R use {StdRng}

  -- The task after a turn serves the session, in which a command has been executed or not.
  pub record Turned (s : Session) (d : Driver StdRng) (r : Task × Driver StdRng)
      (s' : Session × MemoryEngine) : Type 0 where
    pub serves : Serves r.0 s'.0
    pub storage : r.1.storage ≡ s'.1
    pub idle : IsIdle r.1
    pub grown : end_of_log r.1.node ≤ end_of_log d.node + 1

  -- A command of the session is executed, or none.
  abbrev pub stepped : Bool → Session → MemoryEngine → Session × MemoryEngine
  stepped true s e = execute members s e
  stepped false s e = (s, e)

  read_buf-Serves :
      (chunks : List Bytes) (t : Task) (s : Session)
      → Serves t s
      → t.chunks ≡ chunks
      → Serves (read_buf chunks t) s
  unfolding read_buf
  read_buf-Serves [] t s v e = v
  read_buf-Serves ([] ∷ more) t s v e = absurd ((subst (All (λ c. c ≢ [])) e v.some_bytes).0 refl)
  read_buf-Serves ((b ∷ chunk) ∷ more) t s v e = record {
    written = v.written;
    waits = v.waits;
    left =
        append_assoc t.buf (b ∷ chunk) (concat more)
        ∙ (ap (λ cs. t.buf ++ concat cs) (sym e) ∙ v.left);
    some_bytes = (subst (All (λ c. c ≢ [])) e v.some_bytes).1;
    answerable = v.answerable;
  }

  -- What the buffer decodes to is what the requests left begin with.
  left-AfterMore :
      (t : Task) (s : Session) (x : Decoded × Bytes)
      → Serves t s
      → decode t.buf ≡ x
      → AfterMore (concat t.chunks) x (decode (wires s.commands))
  left-AfterMore t s x v e =
      subst (λ y. AfterMore (concat t.chunks) y (decode (wires s.commands))) e
        (subst (λ b. AfterMore (concat t.chunks) (decode t.buf) (decode b)) v.left
          (decode-append t.buf (concat t.chunks)))

  decode-wires :
      (c : Command) (cs : List Command)
      → Fits c
      → decode (wires (c ∷ cs)) ≡ (frame (array (bulks (request c))), wires cs)
  unfolding wires wire
  decode-wires c cs f =
      decode-encode (array (bulks (request c))) (wires cs) (request-IsSendable c f)

  decode-wires_nil : decode (wires []) ≡ (partial, [])
  unfolding wires
  decode-wires_nil = decode-nil

  executed-Turned :
      (t : Task) (c : Command) (cs : List Command) (replies rest : Bytes) (d : Driver StdRng)
      → Serves t (record { commands = c ∷ cs; replies = replies })
      → rest ++ concat t.chunks ≡ wires cs
      → IsIdle d
      → end_of_log d.node + 2 < u64_mod
      → Turned
          (record { commands = c ∷ cs; replies = replies })
          d
          (turn_decoded debug
            (lone_handle R C members due)
            (frame (array (bulks (request c))), rest)
            t
            d)
          (execute members (record { commands = c ∷ cs; replies = replies }) d.storage)
  unfolding turn_decoded execute
  executed-Turned t c cs replies rest d v l i room =
      let ((r, rs), (f, fs), (k, ks)) = v.answerable in
      let same = answer-request debug (lone_handle R C members due) c d r in
      let a = dispatch-Answered R C members due some_bytes c d k i room in
      rw same (record {
        serves = record {
          written =
              ap (λ out. out ++ encode (dispatch (lone_handle R C members due) c d).0) v.written
              ∙ ap (λ x. replies ++ encode x) a.reply;
          waits = v.waits;
          left = l;
          some_bytes = v.some_bytes;
          answerable = (rs, fs, ks);
        };
        storage = a.storage;
        idle = a.idle;
        grown = a.grown;
      })

  pub decoded-Turned :
      (t : Task) (cs : List Command) (replies : Bytes) (d : Driver StdRng) (x : Decoded × Bytes)
      → decode t.buf ≡ x
      → Serves t (record { commands = cs; replies = replies })
      → IsIdle d
      → end_of_log d.node + 2 < u64_mod
      → (b : Bool) × Turned
          (record { commands = cs; replies = replies })
          d
          (turn_decoded debug (lone_handle R C members due) x t d)
          (stepped b (record { commands = cs; replies = replies }) d.storage)
  unfolding turn_decoded
  decoded-Turned t cs replies d (partial, rest) e v i room = (
    false,
    record {
      serves =
          read_buf-Serves t.chunks (record t { buf = rest }) _
            (record {
              written = v.written;
              waits = v.waits;
              left = rw (decode-partial t.buf rest e) v.left;
              some_bytes = v.some_bytes;
              answerable = v.answerable;
            })
            refl;
      storage = refl;
      idle = i;
      grown = omega arith;
    },
  )
  decoded-Turned t [] replies d (frame f, rest) e v i room =
      let a = left-AfterMore t _ (frame f, rest) v e in cc (a, decode-wires_nil)
  decoded-Turned t [] replies d (protocol_error msg, rest) e v i room =
      let a = left-AfterMore t _ (protocol_error msg, rest) v e in cc (a, decode-wires_nil)
  decoded-Turned t (c ∷ cs) replies d (protocol_error msg, rest) e v i room =
      let a = left-AfterMore t _ (protocol_error msg, rest) v e in
      cc (a, decode-wires c cs v.answerable.1.0)
  decoded-Turned t (c ∷ cs) replies d (frame f, rest) e v i room =
      let a = left-AfterMore t _ (frame f, rest) v e in
      let b = decode-wires c cs v.answerable.1.0 in
      let which : f ≡ array (bulks (request c)) = cc (a, b) in
      let behind : rest ++ concat t.chunks ≡ wires cs = cc (a, b) in
      (true, rw which (executed-Turned t c cs replies rest d v behind i room))

  -- The tasks serve the sessions, and the driver is idle with the map in its engine.
  pub record Refines (ts : List Task) (d : Driver StdRng) (s : List Session × MemoryEngine)
      : Type 0 where
    pub serve : AllServe ts s.0
    pub storage : d.storage ≡ s.1
    pub idle : IsIdle d

  turn_at-Turned :
      (p : Progress) (t : Task) (s : Session) (d : Driver StdRng)
      → p ≡ waiting
      → Serves t s
      → IsIdle d
      → end_of_log d.node + 2 < u64_mod
      → (b : Bool) × Turned s d
          (turn_at debug (lone_handle R C members due) p t d)
          (stepped b s d.storage)
  unfolding turn_at
  turn_at-Turned waiting t s d e v i room =
      decoded-Turned t s.commands s.replies d (decode t.buf) refl v i room
  turn_at-Turned hung_up t s d e v i room = cc
  turn_at-Turned (failed x) t s d e v i room = cc

  pub record Stepped (d : Driver StdRng) (r : List Task × Driver StdRng)
      (s : List Session × MemoryEngine) : Type 0 where
    pub refines : Refines r.0 r.1 s
    pub grown : end_of_log r.1.node ≤ end_of_log d.node + 1

  first-Stepped :
      (b : Bool) (ts : List Task) (s : Session) (ss : List Session) (d : Driver StdRng)
      (r : Task × Driver StdRng)
      → AllServe ts ss
      → Turned s d r (stepped b s d.storage)
      → Stepped d (r.0 ∷ ts, r.1) (act members (acted b 0) (s ∷ ss, d.storage))
  unfolding act execute_of
  first-Stepped true ts s ss d r vs w = record {
    refines = record { serve = (w.serves, vs); storage = w.storage; idle = w.idle };
    grown = w.grown;
  }
  first-Stepped false ts s ss d r vs w = record {
    refines = record { serve = (w.serves, vs); storage = w.storage; idle = w.idle };
    grown = w.grown;
  }

  later-Stepped :
      (b : Bool) (k : ℕ) (t : Task) (s : Session) (ss : List Session) (d : Driver StdRng)
      (r : List Task × Driver StdRng)
      → Serves t s
      → Stepped d r (act members (acted b k) (ss, d.storage))
      → Stepped d (t ∷ r.0, r.1) (act members (acted b (suc k)) (s ∷ ss, d.storage))
  unfolding act execute_of
  later-Stepped true k t s ss d r v w = record {
    refines = record {
      serve = (v, w.refines.serve);
      storage = w.refines.storage;
      idle = w.refines.idle;
    };
    grown = w.grown;
  }
  later-Stepped false k t s ss d r v w = record {
    refines = record {
      serve = (v, w.refines.serve);
      storage = w.refines.storage;
      idle = w.refines.idle;
    };
    grown = w.grown;
  }

  pub turn_of-Stepped :
      (k : ℕ) (ts : List Task) (ss : List Session) (d : Driver StdRng)
      → AllServe ts ss
      → IsIdle d
      → end_of_log d.node + 2 < u64_mod
      → (b : Bool) × Stepped d
          (turn_of debug (lone_handle R C members due) k ts d)
          (act members (acted b k) (ss, d.storage))
  unfolding turn_of turn act
  turn_of-Stepped k [] [] d v i room = (
    false,
    record { refines = record { serve = tt; storage = refl; idle = i }; grown = omega arith },
  )
  turn_of-Stepped k [] (s ∷ ss) d v i room = absurd v
  turn_of-Stepped k (t ∷ ts) [] d v i room = absurd v
  turn_of-Stepped zero (t ∷ ts) (s ∷ ss) d (v, vs) i room =
      let (b, w) = turn_at-Turned t.progress t s d v.waits v i room in
      (b, first-Stepped b ts s ss d _ vs w)
  turn_of-Stepped (suc k) (t ∷ ts) (s ∷ ss) d (v, vs) i room =
      let (b, w) = turn_of-Stepped k ts ss d vs i room in (b, later-Stepped b k t s ss d _ v w)
