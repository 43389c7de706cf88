-- ===== src/Net/Link.antt =====
-- src/net/peer.rs: what one node writes on a link, the other reads.
use ferrium.Common.{
  ℕ, zero, suc, ◌+◌, ◌*◌, ◌/◌, ◌%◌, ◌^◌, ◌<◌, true, none, some, List, [], ◌∷◌, ◌++◌, map,
  append_assoc, append-nil, Bytes, length, length-append, take, take-append, drop-append, All, ◌≡◌,
  refl, sym, ap, ◌∙◌, arith,
}
use ferrium.Raft.Message.{NodeId, Message}
use ferrium.Net.Peer.{
  Wire, WireCodec, write_u32, write_frame, got, read_payload, read_frame, written, Attempt, Conn,
  connect, write_on, link_one, peer_link, read_connection,
}

pub u32_digits :
    (n : ℕ)
    → n < 2 ^ 32
    → ((n / 2 ^ 24 % 256 * 256 + n / 2 ^ 16 % 256) * 256 + n / 2 ^ 8 % 256) * 256 + n % 256 ≡ n
u32_digits n h = omega arith

read_payload-append :
    (payload rest : Bytes) → read_payload (length payload) (payload ++ rest) ≡ got payload rest
unfolding read_payload
read_payload-append payload rest =
    ground (arith, length-append payload rest, take-append payload rest, drop-append payload rest)

-- A frame whose length fits its prefix is read back, with what stands behind it.
pub read_frame-write_frame :
    (payload rest : Bytes)
    → length payload < 2 ^ 32
    → read_frame (write_frame payload ++ rest) ≡ got payload rest
unfolding read_frame write_frame write_u32
read_frame-write_frame payload rest h =
    let small : length payload % 2 ^ 32 ≡ length payload = omega arith in
    ap (λ n. read_payload n (payload ++ rest))
      (u32_digits (length payload % 2 ^ 32) (omega arith) ∙ small)
    ∙ read_payload-append payload rest

pub take-nil : {A : Type 0} (n : ℕ) → take {A = A} n [] ≡ []
take-nil zero = refl
take-nil (suc n) = refl

pub length-write_frame_pos : (payload : Bytes) → 0 < length (write_frame payload)
unfolding write_frame write_u32
length-write_frame_pos payload = omega arith

module _ (C : WireCodec) (my_id : NodeId) where
  -- The message is written in a frame whose length fits its prefix.
  abbrev pub IsWritable : Message → Type 0
  IsWritable m =
      (b : Bytes) × (C.to_vec (record { from = my_id; message = m }) ≡ some b) × (length b < 2 ^ 32)

  unfoldable pub frames : (ms : List Message) → All IsWritable ms → Bytes
  frames [] h = []
  frames (m ∷ ms) ((b, e, l), hs) = write_frame b ++ frames ms hs

  -- Attempts that succeed.
  abbrev pub delivered : List Message → List (Attempt × Message)
  delivered = map (λ m. (record { connects = true; writes = written }, m))

  abbrev pub wires : List Message → List Wire
  wires = map (λ m. record { from = my_id; message = m })

  link_one-written :
      (m : Message) (b : Bytes) (conn : Conn)
      → C.to_vec (record { from = my_id; message = m }) ≡ some b
      → link_one C my_id (record { connects = true; writes = written }) m conn
        ≡ write_on C (connect C true conn.open_one) written (write_frame b) conn
  unfolding link_one
  link_one-written m b conn e = rw (e, link_one) refl

  peer_link-frames :
      (ms : List Message) (h : All IsWritable ms) (sent : Bytes) (broken_ones : List Bytes)
      → peer_link C my_id
          (delivered ms)
          (record { open_one = some sent; broken_ones = broken_ones })
        ≡ record { open_one = some (sent ++ frames ms h); broken_ones = broken_ones }
  unfolding peer_link connect write_on frames
  peer_link-frames [] h sent broken_ones =
      ap (λ s. record { open_one = some s; broken_ones = broken_ones }) (sym (append-nil sent))
  peer_link-frames (m ∷ ms) ((b, e, l), hs) sent broken_ones =
      ap (peer_link C my_id (delivered ms)) (link_one-written m b _ e)
      ∙ (peer_link-frames ms hs (sent ++ write_frame b) broken_ones
          ∙ ap (λ s. record { open_one = some s; broken_ones = broken_ones })
              (append_assoc sent (write_frame b) (frames ms hs)))

  -- The first message makes the connection.
  peer_link-connects :
      (ms : List Message) (h : All IsWritable ms) (s : Bytes)
      → (peer_link C my_id (delivered ms) (record { open_one = none; broken_ones = [] })).open_one
        ≡ some s
      → frames ms h ≡ s
  unfolding peer_link connect write_on frames
  peer_link-connects [] h s e = cc
  peer_link-connects (m ∷ ms) ((b, k, l), hs) s e =
      let first =
        ap (peer_link C my_id (delivered ms))
          (link_one-written m b (record { open_one = none; broken_ones = [] }) k) in
      let all = ap (λ conn. conn.open_one) (first ∙ peer_link-frames ms hs (write_frame b) []) in
      let same : some (write_frame b ++ frames ms hs) ≡ some s = sym all ∙ e in cc

  read_connection-frames :
      (ms : List Message) (h : All IsWritable ms) (fuel accepts : ℕ)
      → length (frames ms h) < fuel
      → read_connection C fuel accepts (frames ms h) ≡ take accepts (wires ms)
  unfolding read_connection frames read_frame
  read_connection-frames [] h zero accepts l = absurd (omega arith)
  read_connection-frames (m ∷ ms) h zero accepts l = absurd (omega arith)
  read_connection-frames [] h (suc fuel) accepts l = sym (take-nil accepts)
  read_connection-frames (m ∷ ms) ((b, e, k), hs) (suc fuel) accepts l =
      let sent = length-append (write_frame b) (frames ms hs) in
      let some_bytes = length-write_frame_pos b in
      rw
        (
          read_frame-write_frame b (frames ms hs) k,
          C.from_slice-to_vec (record { from = my_id; message = m }) b e,
          read_connection,
        )
        (by_accepts accepts λ j. read_connection-frames ms hs fuel j (omega arith))
    where
      by_accepts :
          (n : ℕ)
          → ((j : ℕ) → read_connection C fuel j (frames ms hs) ≡ take j (wires ms))
          → elim n as (λ _. List Wire) [
            | zero ↦ []
            | suc j ↦ record { from = my_id; message = m } ∷ read_connection C fuel j (frames ms hs)
          ]
            ≡ take n (wires (m ∷ ms))
      by_accepts zero ih = refl
      by_accepts (suc j) ih = ap (λ ws. record { from = my_id; message = m } ∷ ws) (ih j)

  -- If the connection is made and stays up, and each message has a text shorter than 2^32 bytes,
  -- then what the peer's reader sends on are the messages given to the link, in order and with
  -- their sender, up to the number that the driver takes.
  pub read_connection-peer_link :
      (ms : List Message) (s : Bytes) (fuel accepts : ℕ)
      → All IsWritable ms
      → (peer_link C my_id (delivered ms) (record { open_one = none; broken_ones = [] })).open_one
        ≡ some s
      → length s < fuel
      → read_connection C fuel accepts s ≡ take accepts (wires ms)
  read_connection-peer_link ms s fuel accepts h e l =
      let same = peer_link-connects ms h s e in
      rw (← same) (read_connection-frames ms h fuel accepts (omega (arith, ap length same)))
