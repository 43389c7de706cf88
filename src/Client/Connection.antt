-- ===== src/Client/Connection.antt =====
-- src/net/client.rs, handle_connection: the loop over the frames that have been buffered.
use ferrium.Common.{ℕ, zero, suc, List, [], ◌∷◌, ◌++◌, Bytes, length}
use ferrium.Protocol.Resp.{Frame, encode, Decoded, frame, partial, protocol_error, decode}
use ferrium.Protocol.Error.{Error, protocol}
use ferrium.Client.{Handle, answer}

-- Where the loop stands: it awaits more bytes, the client has hung up, or it has returned an error.
pub data Progress : Type 0 where
  waiting : Progress
  hung_up : Progress
  failed : Error → Progress

-- The bytes written to the client, the buffer (dropped when the loop returns), and the rest of the
-- node.
pub record Served (W : Type 0) : Type 0 where
  pub written : Bytes
  pub buf : Bytes
  pub progress : Progress
  pub world : W

module _ {W : Type 0} where
  unfoldable pub prepend : Bytes → Served W → Served W
  prepend out r = record r { written = out ++ r.written }

  -- More of the loop, if it waits.
  unfoldable pub resume_at : Progress → Served W → (Bytes → W → Served W) → Served W
  resume_at waiting r k = prepend r.written (k r.buf r.world)
  resume_at hung_up r k = r
  resume_at (failed e) r k = r

  unfoldable pub resume : Served W → (Bytes → W → Served W) → Served W
  resume r k = resume_at r.progress r k

module _ {W : Type 0} (debug : Frame → Bytes) (h : Handle W) where
  -- A turn of the loop after `Frame::decode`; `next` is the rest of the loop.
  unfoldable pub serve_decoded : (Bytes → W → Served W) → Decoded × Bytes → W → Served W
  serve_decoded next (frame f, rest) w =
      let (reply, w') = answer debug h f w in prepend (encode reply) (next rest w')
  serve_decoded next (partial, rest) w = record {
    written = [];
    buf = rest;
    progress = waiting;
    world = w;
  }
  serve_decoded next (protocol_error msg, rest) w = record {
    written = [];
    buf = [];
    progress = failed (protocol msg);
    world = w;
  }

  -- The loop until it has to read. A frame takes a byte of the buffer at least.
  unfoldable pub serve : ℕ → Bytes → W → Served W
  serve zero buf w = record { written = []; buf = buf; progress = waiting; world = w }
  serve (suc fuel) buf w = serve_decoded (serve fuel) (decode buf) w

  unfoldable pub drain : Bytes → W → Served W
  drain buf w = serve (suc (length buf)) buf w

  -- `handle_connection`, for the chunks that its reads give: an empty one is the end.
  unfoldable pub handle_connection : List Bytes → Bytes → W → Served W
  handle_connection [] buf w = drain buf w
  handle_connection ([] ∷ chunks) buf w =
      resume (drain buf w)
        λ buf' w'. record { written = []; buf = []; progress = hung_up; world = w' }
  handle_connection ((b ∷ chunk) ∷ chunks) buf w =
      resume (drain buf w) λ buf' w'. handle_connection chunks (buf' ++ (b ∷ chunk)) w'
