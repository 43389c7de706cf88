-- ===== src/Client/Pipeline.antt =====
-- src/net/client.rs: requests that a client sends one behind the other.
use ferrium.Common.{
  ℕ, zero, suc, ◌≤◌, ◌<◌, List, [], ◌∷◌, ◌++◌, Bytes, length, ◌≡◌, ◌≢◌, refl, ap, ◌∙◌, arith, All,
}
use ferrium.Protocol.Decimal.{max_i64}
use ferrium.Protocol.Resp.{Frame, array, bulks, encode, decode, partial, parse}
use ferrium.Protocol.RoundTrip.{IsSendable, decode-encode}
use ferrium.Protocol.WellFormed.{bulks-AreSendable, count_items-bulks}
use ferrium.Protocol.Progress.{length-decode}
use ferrium.Protocol.Command.{Command}
use ferrium.Protocol.Requests.{request, IsRequest, from_frame-request}
use ferrium.Client.{Handle, answer, answer_parsed, dispatch}
use ferrium.Client.Connection.{
  Served, waiting, prepend, serve_decoded, serve, drain, handle_connection,
}
use ferrium.Client.Chunks.{concat, handle_connection-chunks}

-- The bytes of a request.
unfoldable pub wire : Command → Bytes
wire c = encode (array (bulks (request c)))

unfoldable pub wires : List Command → Bytes
wires [] = []
wires (c ∷ cs) = wire c ++ wires cs

-- The words of a request are not longer, and not more, than an i64 counts.
abbrev pub Fits : Command → Type 0
Fits c = (length (request c) ≤ max_i64) × All (λ w. length w ≤ max_i64) (request c)

pub request-IsSendable : (c : Command) → Fits c → IsSendable (array (bulks (request c)))
unfolding IsSendable
request-IsSendable c (h, hs) =
    (omega (arith, count_items-bulks (request c)), bulks-AreSendable (request c) hs)

pub decode-nil : decode [] ≡ (partial, [])
unfolding decode parse
decode-nil = refl

module _ {W : Type 0} (debug : Frame → Bytes) (h : Handle W) where
  -- What the connection should do: one command after the other, each with its reply.
  unfoldable pub replies : List Command → W → Served W
  replies [] w = record { written = []; buf = []; progress = waiting; world = w }
  replies (c ∷ cs) w = let (reply, w') = dispatch h c w in prepend (encode reply) (replies cs w')

  pub answer-request :
      (c : Command) (w : W)
      → IsRequest c
      → answer debug h (array (bulks (request c))) w ≡ dispatch h c w
  unfolding answer answer_parsed
  answer-request c w r = ap (λ m. answer_parsed h m w) (from_frame-request debug c r)

  serve-wires :
      (cs : List Command) (fuel : ℕ) (w : W)
      → All IsRequest cs
      → All Fits cs
      → length (wires cs) < fuel
      → serve debug h fuel (wires cs) w ≡ replies cs w
  unfolding serve replies wires wire serve_decoded
  serve-wires cs zero w r f l = absurd (omega arith)
  serve-wires [] (suc fuel) w r f l = decoded_nothing
    where
      decoded_nothing :
          serve_decoded debug h (serve debug h fuel) (decode []) w
          ≡ record { written = []; buf = []; progress = waiting; world = w }
      decoded_nothing = rw decode-nil refl
  serve-wires (c ∷ cs) (suc fuel) w (r, rs) (f, fs) l =
      let x = array (bulks (request c)) in
      let e = decode-encode x (wires cs) (request-IsSendable c f) in
      let shorter = length-decode (wire c ++ wires cs) (wires cs) x e in
      rw (e, answer-request c w r)
        (ap (prepend (encode (dispatch h c w).0))
          (serve-wires cs fuel (dispatch h c w).1 rs fs (omega arith)))

  -- Requests that a client sends one behind the other, in whatever nonempty pieces they arrive,
  -- are each executed once and in order, each with its reply written in order, and nothing is left
  -- in the buffer, provided their keys are UTF-8, a DEL has a key, and the number of words and the
  -- length of each fit an i64.
  pub handle_connection-wires :
      (cs : List Command) (chunks : List Bytes) (w : W)
      → concat chunks ≡ wires cs
      → All (λ c. c ≢ []) chunks
      → All IsRequest cs
      → All Fits cs
      → handle_connection debug h chunks [] w ≡ replies cs w
  unfolding drain
  handle_connection-wires cs chunks w e n r f =
      handle_connection-chunks debug h chunks [] w n
      ∙ (ap (λ s. drain debug h s w) e
          ∙ serve-wires cs (suc (length (wires cs))) w r f (omega arith))
