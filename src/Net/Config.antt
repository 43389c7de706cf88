-- ===== src/Net/Config.antt =====
-- src/config.rs: the configuration, the address of the Raft transport, and the `--peer` argument.
use ferrium.Common.{
  ℕ, ◌+◌, ◌%◌, ◌^◌, ◌<◌, Bool, true, false, if◌then◌else◌, ◌==◌, Option, none, some, List, [], ◌∷◌,
  ◌++◌, Bytes, bytes, ◌≡◌, ◌≢◌, refl, arith,
}

-- The address is kept as the text of its host, and its port.
pub record SocketAddr : Type 0 where
  pub host : Bytes
  pub port : ℕ

-- `str::parse::<SocketAddr>` of the standard library, and the text of its error.
pub record AddrSyntax : Type 0 where
  pub parse : Bytes → Option SocketAddr
  pub error : Bytes

pub record Peer : Type 0 where
  pub id : Bytes
  pub addr : SocketAddr

pub record Config : Type 0 where
  pub id : Bytes
  pub addr : SocketAddr
  pub raft_addr : Option SocketAddr
  pub data_dir : Bytes
  pub join : Option SocketAddr
  pub peers : List Peer
  pub metrics_addr : Option SocketAddr
  pub tls : Bool
  pub tls_cert : Option Bytes
  pub tls_key : Option Bytes

-- `Config::raft_addr`
unfoldable pub effective_raft_addr : Config → SocketAddr
effective_raft_addr c = elim c.raft_addr [
  | some a ↦ a
  | none ↦ record c.addr { port = (c.addr.port + 10000) % 2 ^ 16 }
]

-- `str::split_once` at a byte.
abbrev pub after_first : ℕ → Option (Bytes × Bytes) → Option (Bytes × Bytes)
after_first b none = none
after_first b (some (l, r)) = some (b ∷ l, r)

unfoldable pub split_once : ℕ → Bytes → Option (Bytes × Bytes)
split_once sep [] = none
split_once sep (b ∷ s) =
    let rest = after_first b (split_once sep s) in if b == sep then some ([], s) else rest

pub data ParsedPeer : Type 0 where
  ok : Peer → ParsedPeer
  err : (msg : Bytes) → ParsedPeer

module _ (A : AddrSyntax) where
  unfoldable pub parse_addr : Bytes → Bytes → ParsedPeer
  parse_addr id addr = elim (A.parse addr) [
    | some a ↦ ok (record { id = id; addr = a })
    | none ↦ err (bytes "invalid peer address `" ++ addr ++ bytes "`: " ++ A.error)
  ]

  unfoldable pub parse_peer : Bytes → ParsedPeer
  parse_peer raw = elim (split_once b'=' raw) [
    | some (id, addr) ↦ parse_addr id addr
    | none ↦ err (bytes "expected `id=host:port`, got `" ++ raw ++ bytes "`")
  ]

-- With no transport address given and a client port below 2^16, the port of the transport is below
-- 2^16 and differs from the client port.
effective_raft_addr-port :
    (c : Config)
    → c.raft_addr ≡ none
    → c.addr.port < 2 ^ 16
    → ((effective_raft_addr c).port < 2 ^ 16) × ((effective_raft_addr c).port ≢ c.addr.port)
unfolding effective_raft_addr
effective_raft_addr-port c e h = rw e (omega arith, λ k. omega arith)

-- The byte does not stand in the text.
unfoldable pub has_byte : ℕ → Bytes → Bool
has_byte sep [] = false
has_byte sep (b ∷ s) = if b == sep then true else has_byte sep s

split_once-append :
    (sep : ℕ) (l r : Bytes) → has_byte sep l ≡ false → split_once sep (l ++ sep ∷ r) ≡ some (l, r)
unfolding split_once has_byte
split_once-append sep [] r h = ground arith
split_once-append sep (b ∷ l) r h = ground (arith, split_once-append sep l r)

-- A peer is cut at the first equals sign.
parse_peer-append :
    (A : AddrSyntax) (id addr : Bytes)
    → has_byte b'=' id ≡ false
    → parse_peer A (id ++ b'=' ∷ addr) ≡ parse_addr A id addr
unfolding parse_peer
parse_peer-append A id addr h = rw (split_once-append b'=' id addr h, parse_peer) refl
