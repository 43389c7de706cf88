-- ===== src/Net/Peer.antt =====
-- src/net/peer.rs: frames with a length in front, and the links that carry messages in them.
use ferrium.Common.{
  ℕ, zero, suc, ◌+◌, ◌*◌, ◌/◌, ◌%◌, ◌^◌, Bool, if◌then◌else◌, leb, Option, none, some, List, [],
  ◌∷◌, ◌++◌, Bytes, length, take, drop, HashMap, lookup, insert, ◌≡◌,
}
use ferrium.Raft.Message.{NodeId, Message}

pub record Wire : Type 0 where
  pub from : NodeId
  pub message : Message

-- `serde_json`, which writes and reads a message with its sender: what is written reads back.
pub record WireCodec : Type 0 where
  pub to_vec : Wire → Option Bytes
  pub from_slice : Bytes → Option Wire
  pub from_slice-to_vec : (w : Wire) (b : Bytes) → to_vec w ≡ some b → from_slice b ≡ some w

-- `write_u32`, most significant byte first.
unfoldable pub write_u32 : ℕ → Bytes
write_u32 n = n / 2 ^ 24 % 256 ∷ n / 2 ^ 16 % 256 ∷ n / 2 ^ 8 % 256 ∷ n % 256 ∷ []

-- `payload.len() as u32`
unfoldable pub write_frame : Bytes → Bytes
write_frame payload = write_u32 (length payload % 2 ^ 32) ++ payload

-- The result of `read_frame`, with what it leaves of a stream: a stream that ends within the length
-- counts as ended, one that ends within the frame is an error.
pub data ReadFrame : Type 0 where
  got : (payload : Bytes) → (rest : Bytes) → ReadFrame
  ended : ReadFrame
  failed : ReadFrame

unfoldable pub read_payload : ℕ → Bytes → ReadFrame
read_payload len s = if leb len (length s) then got (take len s) (drop len s) else failed

unfoldable pub read_frame : Bytes → ReadFrame
read_frame (a ∷ b ∷ c ∷ d ∷ s) = read_payload (((a * 256 + b) * 256 + c) * 256 + d) s
read_frame _ = ended

-- `Peers`: for each peer the messages that its link has not taken yet.
abbrev pub Peers : Type 0
Peers = HashMap (List Message)

unfoldable pub start : List NodeId → Peers
start [] = []
start (id ∷ ids) = insert id [] (start ids)

unfoldable pub send : NodeId → Message → Peers → Peers
send to message txs = elim (lookup to txs) [
  | some queue ↦ insert to (queue ++ message ∷ []) txs
  | none ↦ txs
]

-- What the network does with a message: whether a connection can be made, and whether the frame is
-- written or the connection breaks behind some of its bytes.
pub data Write : Type 0 where
  written : Write
  broken : (part : Bytes) → Write

pub record Attempt : Type 0 where
  pub connects : Bool
  pub writes : Write

-- The bytes on the open connection, and those on the ones that broke.
pub record Conn : Type 0 where
  pub open_one : Option Bytes
  pub broken_ones : List Bytes

module _ (C : WireCodec) where
  unfoldable pub connect : Bool → Option Bytes → Option Bytes
  connect connects (some sent) = some sent
  connect connects none = if connects then some [] else none

  unfoldable pub write_on : Option Bytes → Write → Bytes → Conn → Conn
  write_on none w frame conn = record conn { open_one = none }
  write_on (some sent) written frame conn = record conn { open_one = some (sent ++ frame) }
  write_on (some sent) (broken part) frame conn = record conn {
    open_one = none;
    broken_ones = conn.broken_ones ++ (sent ++ part) ∷ [];
  }

  -- A turn of the loop of `peer_link`.
  unfoldable pub link_one : NodeId → Attempt → Message → Conn → Conn
  link_one my_id att message conn = elim (C.to_vec (record { from = my_id; message = message })) [
    | none ↦ conn
    | some b ↦ write_on (connect att.connects conn.open_one) att.writes (write_frame b) conn
  ]

  unfoldable pub peer_link : NodeId → List (Attempt × Message) → Conn → Conn
  peer_link my_id [] conn = conn
  peer_link my_id ((att, message) ∷ more) conn =
      peer_link my_id more (link_one my_id att message conn)

  -- `read_connection` on all that the stream brings: what is sent to the driver, which takes
  -- `accepts` messages before it is gone. Each frame takes four bytes at least.
  unfoldable pub read_connection : ℕ → ℕ → Bytes → List Wire
  read_connection zero accepts s = []
  read_connection (suc fuel) accepts s = elim (read_frame s) [
    | ended ↦ []
    | failed ↦ []
    | got payload rest ↦ elim (C.from_slice payload) [
      | none ↦ read_connection fuel accepts rest
      | some wire ↦ elim accepts [ zero ↦ [] | suc k ↦ wire ∷ read_connection fuel k rest ]
    ]
  ]
