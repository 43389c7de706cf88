-- ===== src/Net/Breaks.antt =====
-- src/net/peer.rs: a link whose connections break loses messages, but never mixes them.
use ferrium.Common.{
  IsSublist, ℕ, ◌<◌, ◌^◌, Bool, true, false, ◌||◌, Option, none, some, List, [], ◌∷◌, ◌++◌,
  append_assoc, append-nil, Bytes, length, All, ◌≡◌, refl, sym, ap, ◌∙◌, if◌then◌else◌,
  Option-cases, inl, inr,
}
use ferrium.Raft.Message.{NodeId, Message}
use ferrium.Net.Peer.{
  Wire, WireCodec, write_frame, read_frame, Write, written, broken, Attempt, Conn, connect,
  write_on, link_one, peer_link, read_connection,
}
use ferrium.Net.Link.{IsWritable, wires, frames}
use ferrium.Net.Cut.{cut_received, cut_received-IsSublist}
use ferrium.Net.Partial.{
  IsPart, read_frame-IsShort, received, all_received, received-part, received-frames,
  all_received-last, wires-append, frames-last,
}

module _ (C : WireCodec) (my_id : NodeId) where
  -- The connections in the order in which they were made.
  abbrev pub open_stream : Option Bytes → List Bytes
  open_stream none = []
  open_stream (some s) = s ∷ []

  abbrev pub streams : Conn → List Bytes
  streams conn = conn.broken_ones ++ open_stream conn.open_one

  -- What an attempt gets through, and whether the connection is up behind it: a message with a text
  -- gets through if its frame is written whole on a connection that is up or can be made.
  unfoldable pub attempted : Write → Message → List Message × Bool
  attempted written m = (m ∷ [], true)
  attempted (broken part) m = ([], false)

  unfoldable pub attempt : Bool → Attempt → Message → List Message × Bool
  attempt up att m = elim (C.to_vec (record { from = my_id; message = m })) [
    | none ↦ ([], up)
    | some b ↦ if up || att.connects then attempted att.writes m else ([], false)
  ]

  -- All messages that get through.
  unfoldable pub through : Bool → List (Attempt × Message) → List Message
  through up [] = []
  through up ((att, m) ∷ more) =
      let (got_through, up') = attempt up att m in got_through ++ through up' more

  -- Frames have lengths that fit their prefix, and a break leaves a part of the frame.
  abbrev pub Breaks : Write → Bytes → Type 0
  Breaks written frame = Unit
  Breaks (broken part) frame = IsPart part frame

  abbrev pub IsAttempt : Attempt × Message → Type 0
  IsAttempt (att, m) =
      (b : Bytes)
      → C.to_vec (record { from = my_id; message = m }) ≡ some b
      → (length b < 2 ^ 32) × Breaks att.writes (write_frame b)

  -- What was sent on the open connection are whole frames.
  abbrev IsWhole : Option Bytes → Type 0
  IsWhole none = Unit
  IsWhole (some s) =
      (ms : List Message) × (h : All (IsWritable C my_id) ms) × (s ≡ frames C my_id ms h)

  -- A turn of the link gets the messages `got_through` through, and leaves whole frames.
  record Links (a b : Conn) (got_through : List Message) : Type 0 where
    received_all :
        all_received C (streams b) ≡ all_received C (streams a) ++ wires C my_id got_through
    whole : IsWhole b.open_one

  -- Whether a connection is up.
  abbrev pub is_up : Option Bytes → Bool
  is_up none = false
  is_up (some s) = true

  -- The last connection brings more.
  added :
      (conn : Conn) (s t : Bytes) (more : List Wire)
      → all_received C (streams conn) ≡ all_received C (conn.broken_ones ++ s ∷ [])
      → received C t ≡ received C s ++ more
      → all_received C (conn.broken_ones ++ t ∷ []) ≡ all_received C (streams conn) ++ more
  added conn s t more same e =
      let old = all_received C conn.broken_ones in
      all_received-last C my_id conn.broken_ones t
      ∙ (ap (λ ws. old ++ ws) e
          ∙ (sym (append_assoc old (received C s) more)
              ∙ ap (λ ws. ws ++ more)
                  (sym (all_received-last C my_id conn.broken_ones s) ∙ sym same)))

  write_on-written :
      (m : Message) (b s : Bytes) (conn : Conn)
      → C.to_vec (record { from = my_id; message = m }) ≡ some b
      → length b < 2 ^ 32
      → IsWhole (some s)
      → all_received C (streams conn) ≡ all_received C (conn.broken_ones ++ s ∷ [])
      → Links conn (write_on C (some s) written (write_frame b) conn) (m ∷ [])
  unfolding write_on
  write_on-written m b s conn e small (ms, h, w) same =
      let (h', p) = frames-last C my_id ms h m b e small in
      let whole : s ++ write_frame b ≡ frames C my_id (ms ++ m ∷ []) h' =
        ap (λ x. x ++ write_frame b) w ∙ p in
      let before : received C s ≡ wires C my_id ms =
        ap (received C) w ∙ received-frames C my_id ms h in
      let behind : received C (s ++ write_frame b) ≡ wires C my_id ms ++ wires C my_id (m ∷ []) =
        ap (received C) whole
        ∙ (received-frames C my_id (ms ++ m ∷ []) h' ∙ wires-append C my_id ms (m ∷ [])) in
      record {
        received_all =
            added conn s (s ++ write_frame b) (wires C my_id (m ∷ [])) same
              (behind ∙ ap (λ ws. ws ++ wires C my_id (m ∷ [])) (sym before));
        whole = (ms ++ m ∷ [], h', whole);
      }

  write_on-broken :
      (b s part : Bytes) (conn : Conn)
      → length b < 2 ^ 32
      → IsPart part (write_frame b)
      → IsWhole (some s)
      → all_received C (streams conn) ≡ all_received C (conn.broken_ones ++ s ∷ [])
      → Links conn (write_on C (some s) (broken part) (write_frame b) conn) []
  unfolding write_on
  write_on-broken b s part conn small p (ms, h, w) same =
      let before : received C s ≡ wires C my_id ms =
        ap (received C) w ∙ received-frames C my_id ms h in
      let behind : received C (s ++ part) ≡ wires C my_id ms =
        ap (λ x. received C (x ++ part)) w
        ∙ received-part C my_id ms h part (read_frame-IsShort b part small p) in
      record {
        received_all =
            ap (all_received C) (append-nil (conn.broken_ones ++ (s ++ part) ∷ []))
            ∙ added conn s (s ++ part) [] same
                (behind ∙ (sym before ∙ sym (append-nil (received C s))));
        whole = tt;
      }

  -- The connection that a turn writes on.
  up-Links :
      (m : Message) (b s : Bytes) (w : Write) (conn : Conn)
      → C.to_vec (record { from = my_id; message = m }) ≡ some b
      → length b < 2 ^ 32
      → Breaks w (write_frame b)
      → IsWhole (some s)
      → all_received C (streams conn) ≡ all_received C (conn.broken_ones ++ s ∷ [])
      → Links conn (write_on C (some s) w (write_frame b) conn) (attempted w m).0
        × (is_up (write_on C (some s) w (write_frame b) conn).open_one ≡ (attempted w m).1)
  unfolding write_on attempted
  up-Links m b s written conn e small p v same = (write_on-written m b s conn e small v same, refl)
  up-Links m b s (broken part) conn e small p v same =
      (write_on-broken b s part conn small p v same, refl)

  -- Nothing gets through.
  unchanged : (conn : Conn) → IsWhole conn.open_one → Links conn conn []
  unchanged conn v = record {
    received_all = sym (append-nil (all_received C (streams conn)));
    whole = v;
  }

  -- A connection on which nothing has been written brings nothing.
  fresh-stream : (bs : List Bytes) → all_received C (bs ++ []) ≡ all_received C (bs ++ [] ∷ [])
  unfolding read_connection read_frame
  fresh-stream bs =
      ap (all_received C) (append-nil bs)
      ∙ sym (all_received-last C my_id bs [] ∙ append-nil (all_received C bs))

  written-Links :
      (m : Message) (b : Bytes) (att : Attempt) (o : Option Bytes) (bs : List Bytes)
      → C.to_vec (record { from = my_id; message = m }) ≡ some b
      → length b < 2 ^ 32
      → Breaks att.writes (write_frame b)
      → IsWhole o
      → Links
          (record { open_one = o; broken_ones = bs })
          (write_on C
            (connect C att.connects o)
            att.writes
            (write_frame b)
            (record { open_one = o; broken_ones = bs }))
          (if is_up o || att.connects then attempted att.writes m else ([], false)).0
        × (is_up
              (write_on C
                (connect C att.connects o)
                att.writes
                (write_frame b)
                (record { open_one = o; broken_ones = bs })).open_one
            ≡ (if is_up o || att.connects then attempted att.writes m else ([], false)).1)
  unfolding connect write_on frames
  written-Links m b att (some s) bs e small p v =
      up-Links m b s att.writes (record { open_one = some s; broken_ones = bs }) e small p v refl
  written-Links m b att none bs e small p v = by_connects att.connects
    where
      conn : Conn
      conn = record { open_one = none; broken_ones = bs }

      by_connects :
          (up : Bool)
          → Links conn
              (write_on C (if up then some [] else none) att.writes (write_frame b) conn)
              (if up then attempted att.writes m else ([], false)).0
            × (is_up
                  (write_on C
                    (if up then some [] else none)
                    att.writes
                    (write_frame b)
                    conn).open_one
                ≡ (if up then attempted att.writes m else ([], false)).1)
      by_connects true = up-Links m b [] att.writes conn e small p ([], tt, refl) (fresh-stream bs)
      by_connects false = (unchanged conn tt, refl)

  link_one-Links :
      (m : Message) (att : Attempt) (conn : Conn)
      → IsAttempt (att, m)
      → IsWhole conn.open_one
      → Links conn (link_one C my_id att m conn) (attempt (is_up conn.open_one) att m).0
        × (is_up (link_one C my_id att m conn).open_one ≡ (attempt (is_up conn.open_one) att m).1)
  unfolding link_one attempt
  link_one-Links m att conn a v =
      elim (Option-cases (C.to_vec (record { from = my_id; message = m }))) [
        | inl e ↦ rw (e, link_one, attempt) (unchanged conn v, refl)
        | inr (b, e) ↦
            rw (e, link_one, attempt)
              (written-Links m b att conn.open_one conn.broken_ones e (a b e).0 (a b e).1 v)
      ]

  all_received-peer_link :
      (atts : List (Attempt × Message)) (conn : Conn)
      → All IsAttempt atts
      → IsWhole conn.open_one
      → all_received C (streams (peer_link C my_id atts conn))
        ≡ all_received C (streams conn) ++ wires C my_id (through (is_up conn.open_one) atts)
  unfolding peer_link through
  all_received-peer_link [] conn h v = sym (append-nil (all_received C (streams conn)))
  all_received-peer_link ((att, m) ∷ more) conn (a, rest) v =
      let (turned, up) = link_one-Links m att conn a v in
      let got = (attempt (is_up conn.open_one) att m).0 in
      let up' = (attempt (is_up conn.open_one) att m).1 in
      all_received-peer_link more (link_one C my_id att m conn) rest turned.whole
      ∙ (ap
            (λ x.
              all_received C (streams (link_one C my_id att m conn))
              ++ wires C my_id (through x more))
            up
          ∙ (ap (λ x. x ++ wires C my_id (through up' more)) turned.received_all
              ∙ (append_assoc (all_received C (streams conn)) (wires C my_id got)
                    (wires C my_id (through up' more))
                  ∙ ap (λ x. all_received C (streams conn) ++ x)
                      (sym (wires-append C my_id got (through up' more))))))

  -- A link that breaks and is made again, read in the order in which its connections were made. If
  -- all bytes that the link wrote arrive, on connections that later break too, and the driver
  -- takes all messages, then the reader sends on, with their sender, exactly the messages whose
  -- frame was written whole on a connection that was up or could be made, in order; a frame that
  -- was cut off is lost, and disturbs no other. If on each connection only some of the first bytes
  -- arrive, or the driver takes only some messages, then what it sends on are some of these
  -- messages, in their order, and no other. The conditions: a text is shorter than 2^32 bytes, and
  -- a write that breaks leaves a part of its frame.
  pub all_received-streams :
      (atts : List (Attempt × Message))
      → All IsAttempt atts
      → (all_received C
            (streams (peer_link C my_id atts (record { open_one = none; broken_ones = [] })))
          ≡ wires C my_id (through false atts))
        × ((cuts : List (ℕ × ℕ))
            → IsSublist
                (cut_received C cuts
                  (streams (peer_link C my_id atts (record { open_one = none; broken_ones = [] }))))
                (wires C my_id (through false atts)))
  all_received-streams atts h =
      let all = all_received-peer_link atts (record { open_one = none; broken_ones = [] }) h tt in
      (all, λ cuts. rw (← all) (cut_received-IsSublist C cuts _))
