-- ===== src/Client/Serving.antt =====
-- src/server.rs, serve_clients, and src/net/client.rs: the connections of several clients, each
-- served by a task of its own, in any order of their turns.
use ferrium.Common.{ℕ, zero, suc, List, [], ◌∷◌, ◌++◌, Bytes}
use ferrium.Protocol.Resp.{Frame, encode, Decoded, frame, partial, protocol_error, decode}
use ferrium.Protocol.Error.{protocol}
use ferrium.Client.{Handle, answer}
use ferrium.Client.Connection.{Progress, waiting, hung_up, failed}

-- The task of a connection: what its reads will give, its buffer, the bytes it has written, and
-- where its loop stands.
pub record Task : Type 0 where
  pub chunks : List Bytes
  pub buf : Bytes
  pub written : Bytes
  pub progress : Progress

-- `handle_connection` before its first turn.
abbrev pub spawned : List Bytes → Task
spawned chunks = record { chunks = chunks; buf = []; written = []; progress = waiting }

-- `stream.read_buf`: with nothing there, it goes on waiting; nothing read is the end.
unfoldable pub read_buf : List Bytes → Task → Task
read_buf [] t = t
read_buf ([] ∷ more) t = record t { chunks = more; progress = hung_up }
read_buf ((b ∷ chunk) ∷ more) t = record t { chunks = more; buf = t.buf ++ (b ∷ chunk) }

-- What happens: a client connects, with what its reads will give, a task has a turn, or a tick of
-- the driver's interval has a round.
pub data Happening : Type 0 where
  connects : (chunks : List Bytes) → Happening
  turns : (k : ℕ) → Happening
  ticker : Happening

module _ {W : Type 0} (debug : Frame → Bytes) (h : Handle W) where
  unfoldable pub turn_decoded : Decoded × Bytes → Task → W → Task × W
  turn_decoded (frame f, rest) t w =
      let (reply, w') = answer debug h f w in
      (record t { buf = rest; written = t.written ++ encode reply }, w')
  turn_decoded (partial, rest) t w = (read_buf t.chunks (record t { buf = rest }), w)
  turn_decoded (protocol_error msg, rest) t w =
      (record t { buf = []; progress = failed (protocol msg) }, w)

  -- A turn of the loop of `handle_connection`, if it has not returned.
  unfoldable pub turn_at : Progress → Task → W → Task × W
  turn_at waiting t w = turn_decoded (decode t.buf) t w
  turn_at hung_up t w = (t, w)
  turn_at (failed e) t w = (t, w)

  unfoldable pub turn : Task → W → Task × W
  turn t w = turn_at t.progress t w

  -- A turn of the task at an index.
  unfoldable pub turn_of : ℕ → List Task → W → List Task × W
  turn_of k [] w = ([], w)
  turn_of zero (t ∷ ts) w = let (t', w') = turn t w in (t' ∷ ts, w')
  turn_of (suc k) (t ∷ ts) w = let (ts', w') = turn_of k ts w in (t ∷ ts', w')

  -- The round of a tick is the world's.
  module _ (tick_round : W → W) where
    unfoldable pub happen : Happening → List Task × W → List Task × W
    happen (connects chunks) (ts, w) = (ts ++ spawned chunks ∷ [], w)
    happen (turns k) (ts, w) = turn_of k ts w
    happen ticker (ts, w) = (ts, tick_round w)

    unfoldable pub serve_clients : List Happening → List Task × W → List Task × W
    serve_clients [] s = s
    serve_clients (x ∷ xs) s = serve_clients xs (happen x s)
