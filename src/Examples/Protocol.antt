-- ===== src/Examples/Protocol.antt =====
-- The theorems on the client protocol at concrete inputs.
use ferrium.Common.{◌≡◌, refl, [], ◌++◌, Bytes, bytes, arith}
use ferrium.Protocol.Utf8.{is_utf8_from}
use ferrium.Protocol.Decimal.{negsuc}
use ferrium.Protocol.Resp.{
  parse_simple, read_string, line, Frame, error, integer, bulk, null, array, end, item, crlf,
  encode, parse, decode, frame, bulks, simple,
}
use ferrium.Protocol.WellFormed.{decode-IsSendable}
use ferrium.Protocol.Progress.{parse_fuel}
use ferrium.Protocol.Streaming.{AfterMore, decode-append}
use ferrium.Protocol.RoundTrip.{has_crlf, IsSendable, decode-encode, decode-encode_crlf}
use ferrium.Protocol.Command.{set, from_frame, ok}
use ferrium.Protocol.Requests.{request, IsRequest, from_frame-request}

-- An array of a bulk string, a number and a null.
abbrev reply : Frame
reply = array (item (bulk (bytes "a")) (item (integer (negsuc 41)) (item null end)))

decode-encode_example : decode (encode reply ++ bytes "+") ≡ (frame reply, bytes "+")
unfolding IsSendable
decode-encode_example =
    decode-encode reply (bytes "+") (omega arith, (omega arith, (omega arith, (tt, tt))))

decode-encode_crlf_example :
    decode (encode (error (bytes "ERR " ++ crlf ++ bytes "+OK")))
    ≡ (frame (error (bytes "ERR ")), bytes "+OK" ++ crlf)
unfolding is_utf8_from has_crlf
decode-encode_crlf_example = decode-encode_crlf (bytes "ERR ") (bytes "+OK") refl refl

-- The text of a frame in an error message, for the examples.
abbrev no_text : Frame → Bytes
no_text x = []

from_frame-request_example :
    from_frame no_text (array (bulks (request (set (bytes "k") (bytes "v")))))
    ≡ ok (set (bytes "k") (bytes "v"))
unfolding IsRequest is_utf8_from
from_frame-request_example = from_frame-request no_text (set (bytes "k") (bytes "v")) refl

-- An array of one word, of 14 bytes.
abbrev ping_bytes : Bytes
ping_bytes = bytes "*1" ++ crlf ++ bytes "$4" ++ crlf ++ bytes "PING" ++ crlf

parse_fuel_example : parse 15 ping_bytes ≡ parse 99 ping_bytes
parse_fuel_example = parse_fuel 15 99 ping_bytes (omega arith) (omega arith)

-- The first of two frames, and half of the second.
decode-append_example :
    AfterMore
      (bytes "K" ++ crlf)
      (decode (bytes "+A" ++ crlf ++ bytes "+O"))
      (decode (bytes "+A" ++ crlf ++ bytes "+OK" ++ crlf))
decode-append_example = decode-append (bytes "+A" ++ crlf ++ bytes "+O") (bytes "K" ++ crlf)

decode-IsSendable_example :
    IsSendable (simple (bytes "OK"))
    × ((more : Bytes)
        → decode (encode (simple (bytes "OK")) ++ more) ≡ (frame (simple (bytes "OK")), more))
unfolding decode parse parse_simple read_string line is_utf8_from
decode-IsSendable_example =
    decode-IsSendable (bytes "+OK" ++ crlf ++ bytes "$1") (bytes "$1") (simple (bytes "OK"))
      (omega arith) refl
