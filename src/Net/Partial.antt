-- ===== src/Net/Partial.antt =====
-- src/net/peer.rs: what a reader gets from a connection that ends within a frame.
use ferrium.Common.{
  ℕ, zero, suc, ◌≤◌, ◌<◌, ◌^◌, ◌%◌, some, List, [], ◌∷◌, ◌++◌, append_assoc, append-nil, Bytes,
  length, length-append, length-take_of_le, take, All, ◌≡◌, refl, sym, ap, ◌∙◌, arith,
}
use ferrium.Raft.Message.{NodeId, Message}
use ferrium.Net.Peer.{
  Wire, WireCodec, write_u32, write_frame, ReadFrame, got, ended, failed, read_payload, read_frame,
  read_connection,
}
use ferrium.Net.Link.{
  IsWritable, wires, u32_digits, frames, read_frame-write_frame, length-write_frame_pos,
}

-- Some bytes from the start of a frame, not all.
abbrev pub IsPart : Bytes → Bytes → Type 0
IsPart part frame = (k : ℕ) × (k < length frame) × (part ≡ take k frame)

-- What does not hold a whole frame gives none.
abbrev pub IsShort : ReadFrame → Type 0
IsShort (got payload rest) = ⊥
IsShort ended = Unit
IsShort failed = Unit

read_payload-IsShort : (len : ℕ) (s : Bytes) → length s < len → IsShort (read_payload len s)
unfolding read_payload
read_payload-IsShort len s h = ground arith

pub read_frame-IsShort :
    (payload part : Bytes)
    → length payload < 2 ^ 32
    → IsPart part (write_frame payload)
    → IsShort (read_frame part)
unfolding read_frame write_frame write_u32
read_frame-IsShort payload part h (zero, l, e) = rw e tt
read_frame-IsShort payload part h (suc zero, l, e) = rw e tt
read_frame-IsShort payload part h (suc (suc zero), l, e) = rw e tt
read_frame-IsShort payload part h (suc (suc (suc zero)), l, e) = rw e tt
read_frame-IsShort payload part h (suc (suc (suc (suc k))), l, e) =
    let digits = u32_digits (length payload % 2 ^ 32) (omega arith) in
    let shorter = length-take_of_le k payload (omega arith) in
    rw e (read_payload-IsShort _ (take k payload) (omega arith))

module _ (C : WireCodec) where
  -- All messages that a reader gets from a connection, and from several one after the other, if the
  -- driver takes them all.
  abbrev pub received : Bytes → List Wire
  received s = read_connection C (suc (length s)) (length s) s

  abbrev pub all_received : List Bytes → List Wire
  all_received [] = []
  all_received (s ∷ ss) = received s ++ all_received ss

module _ (C : WireCodec) (my_id : NodeId) where
  -- What ends within a frame gives the messages whose frames are whole.
  read_connection-part :
      (ms : List Message) (h : All (IsWritable C my_id) ms) (part : Bytes) (fuel accepts : ℕ)
      → IsShort (read_frame part)
      → length (frames C my_id ms h ++ part) < fuel
      → length ms ≤ accepts
      → read_connection C fuel accepts (frames C my_id ms h ++ part) ≡ wires C my_id ms
  unfolding read_connection frames
  read_connection-part [] h part zero accepts s l k = absurd (omega arith)
  read_connection-part (m ∷ ms) h part zero accepts s l k = absurd (omega arith)
  read_connection-part [] h part (suc fuel) accepts s l k = ground arith
  read_connection-part (m ∷ ms) ((b, e, small), hs) part (suc fuel) zero s l k =
      absurd (omega arith)
  read_connection-part (m ∷ ms) ((b, e, small), hs) part (suc fuel) (suc accepts) s l k =
      let tail = frames C my_id ms hs ++ part in
      let assoc = append_assoc (write_frame b) (frames C my_id ms hs) part in
      let sent = length-append (write_frame b) tail in
      let some_bytes = length-write_frame_pos b in
      rw
        (
          assoc,
          read_frame-write_frame b tail small,
          C.from_slice-to_vec (record { from = my_id; message = m }) b e,
          read_connection,
        )
        (ap (λ ws. record { from = my_id; message = m } ∷ ws)
          (read_connection-part ms hs part fuel accepts s (omega (arith, ap length assoc))
            (omega arith)))

  length-frames :
      (ms : List Message) (h : All (IsWritable C my_id) ms)
      → length ms ≤ length (frames C my_id ms h)
  unfolding frames
  length-frames [] h = omega arith
  length-frames (m ∷ ms) ((b, e, small), hs) = omega (
    arith,
    length-frames ms hs,
    length-write_frame_pos b,
    length-append (write_frame b) (frames C my_id ms hs),
  )

  pub received-part :
      (ms : List Message) (h : All (IsWritable C my_id) ms) (part : Bytes)
      → IsShort (read_frame part)
      → received C (frames C my_id ms h ++ part) ≡ wires C my_id ms
  received-part ms h part s =
      read_connection-part ms h part _ _ s (omega arith)
        (omega (arith, length-frames ms h, length-append (frames C my_id ms h) part))

  pub received-frames :
      (ms : List Message) (h : All (IsWritable C my_id) ms)
      → received C (frames C my_id ms h) ≡ wires C my_id ms
  unfolding read_frame
  received-frames ms h =
      ap (received C) (sym (append-nil (frames C my_id ms h))) ∙ received-part ms h [] tt

  all_received-append :
      (ss ts : List Bytes) → all_received C (ss ++ ts) ≡ all_received C ss ++ all_received C ts
  all_received-append [] ts = refl
  all_received-append (s ∷ ss) ts =
      ap (λ ws. received C s ++ ws) (all_received-append ss ts)
      ∙ sym (append_assoc (received C s) (all_received C ss) (all_received C ts))

  pub all_received-last :
      (ss : List Bytes) (s : Bytes)
      → all_received C (ss ++ s ∷ []) ≡ all_received C ss ++ received C s
  all_received-last ss s =
      all_received-append ss (s ∷ [])
      ∙ ap (λ ws. all_received C ss ++ ws) (append-nil (received C s))

  pub wires-append :
      (ms ns : List Message) → wires C my_id (ms ++ ns) ≡ wires C my_id ms ++ wires C my_id ns
  wires-append [] ns = refl
  wires-append (m ∷ ms) ns =
      ap (λ ws. record { from = my_id; message = m } ∷ ws) (wires-append ms ns)

  -- One more frame behind whole ones.
  pub frames-last :
      (ms : List Message) (h : All (IsWritable C my_id) ms) (m : Message) (b : Bytes)
      → C.to_vec (record { from = my_id; message = m }) ≡ some b
      → length b < 2 ^ 32
      → (h' : All (IsWritable C my_id) (ms ++ m ∷ [])) × (frames C my_id ms h ++ write_frame b
          ≡ frames C my_id (ms ++ m ∷ []) h')
  unfolding frames
  frames-last [] h m b e small = (((b, e, small), tt), sym (append-nil (write_frame b)))
  frames-last (m' ∷ ms) ((b', e', s'), hs) m b e small =
      let (h', p) = frames-last ms hs m b e small in
      (
        ((b', e', s'), h'),
        append_assoc (write_frame b') (frames C my_id ms hs) (write_frame b)
            ∙ ap (λ s. write_frame b' ++ s) p,
      )
