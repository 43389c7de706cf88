-- ===== src/Net/Cut.antt =====
-- src/net/peer.rs: what a reader gets from a connection of which only the first bytes arrive.
use ferrium.Common.{
  IsSublist, IsSublist-nil, IsSublist-append, take-IsSublist, ℕ, zero, suc, ◌+◌, ◌*◌, ◌≤◌, ◌<◌, leb,
  true, Bool-cases, Option, none, some, List, [], ◌∷◌, ◌++◌, Bytes, length, take, drop, length-drop,
  ◌≡◌, refl, ap, arith, inl, inr,
}
use ferrium.Net.Peer.{
  Wire, WireCodec, ReadFrame, got, ended, failed, read_payload, read_frame, read_connection,
}
use ferrium.Net.Partial.{received, all_received}

-- What is read of the first bytes of a stream is what is read of all of it, or less.
abbrev CutOff : ReadFrame → ReadFrame → Type 0
CutOff (got payload rest) (got payload' rest') =
    (payload ≡ payload') × (j : ℕ) × (rest ≡ take j rest')
CutOff (got payload rest) _ = ⊥
CutOff ended _ = Unit
CutOff failed _ = Unit

length-take_le : {A : Type 0} (k : ℕ) (s : List A) → length (take k s) ≤ length s
length-take_le zero s = omega arith
length-take_le (suc k) [] = omega arith
length-take_le (suc k) (x ∷ s) = omega (arith, length-take_le k s)

take-take :
    {A : Type 0} (len k : ℕ) (s : List A)
    → len ≤ length (take k s)
    → take len (take k s) ≡ take len s
take-take zero k s h = refl
take-take (suc len) zero s h = absurd (omega arith)
take-take (suc len) (suc k) [] h = refl
take-take (suc len) (suc k) (x ∷ s) h = ap (λ l. x ∷ l) (take-take len k s (omega arith))

-- A cut of what is left is a cut of the rest.
drop-take :
    {A : Type 0} (len k : ℕ) (s : List A) → (j : ℕ) × (drop len (take k s) ≡ take j (drop len s))
drop-take zero k s = (k, refl)
drop-take (suc len) zero s = (0, refl)
drop-take (suc len) (suc k) [] = (0, refl)
drop-take (suc len) (suc k) (x ∷ s) = drop-take len k s

read_payload-take :
    (len k : ℕ) (s : Bytes) → CutOff (read_payload len (take k s)) (read_payload len s)
unfolding read_payload
read_payload-take len k s = elim (Bool-cases (leb len (length (take k s)))) [
  | inl whole ↦
      let fits : len ≤ length (take k s) = ground (arith, whole) in
      let all : leb len (length s) ≡ true = ground (arith, fits, length-take_le k s) in
      let (j, e) = drop-take len k s in rw (whole, all) (take-take len k s fits, j, e)
  | inr cut ↦ rw cut tt
]

read_frame-ended : (s : Bytes) → length s < 4 → read_frame s ≡ ended
unfolding read_frame
read_frame-ended [] h = refl
read_frame-ended (a ∷ []) h = refl
read_frame-ended (a ∷ b ∷ []) h = refl
read_frame-ended (a ∷ b ∷ c ∷ []) h = refl
read_frame-ended (a ∷ b ∷ c ∷ d ∷ s) h = absurd (omega arith)

ended-CutOff : (k : ℕ) (s : Bytes) → length s < 4 → CutOff (read_frame (take k s)) (read_frame s)
ended-CutOff k s h = rw (read_frame-ended (take k s) (omega (arith, length-take_le k s))) tt

read_frame-take : (k : ℕ) (s : Bytes) → CutOff (read_frame (take k s)) (read_frame s)
unfolding read_frame
read_frame-take k [] = ended-CutOff k [] (omega arith)
read_frame-take k (a ∷ []) = ended-CutOff k (a ∷ []) (omega arith)
read_frame-take k (a ∷ b ∷ []) = ended-CutOff k (a ∷ b ∷ []) (omega arith)
read_frame-take k (a ∷ b ∷ c ∷ []) = ended-CutOff k (a ∷ b ∷ c ∷ []) (omega arith)
read_frame-take zero (a ∷ b ∷ c ∷ d ∷ s) = tt
read_frame-take (suc zero) (a ∷ b ∷ c ∷ d ∷ s) = tt
read_frame-take (suc (suc zero)) (a ∷ b ∷ c ∷ d ∷ s) = tt
read_frame-take (suc (suc (suc zero))) (a ∷ b ∷ c ∷ d ∷ s) = tt
read_frame-take (suc (suc (suc (suc k)))) (a ∷ b ∷ c ∷ d ∷ s) =
    read_payload-take (((a * 256 + b) * 256 + c) * 256 + d) k s

length-read_frame :
    (s payload rest : Bytes) → read_frame s ≡ got payload rest → length rest < length s
unfolding read_frame read_payload
length-read_frame [] payload rest e = cc
length-read_frame (a ∷ []) payload rest e = cc
length-read_frame (a ∷ b ∷ []) payload rest e = cc
length-read_frame (a ∷ b ∷ c ∷ []) payload rest e = cc
length-read_frame (a ∷ b ∷ c ∷ d ∷ s) payload rest e =
    let len = ((a * 256 + b) * 256 + c) * 256 + d in ground (arith, length-drop len s)

module _ (C : WireCodec) where
  -- What a reader gets, if only the first bytes arrive and whatever the driver takes, is the first
  -- of what it gets otherwise.
  abbrev Prefix : List Wire → List Wire → Type 0
  Prefix ws vs = (j : ℕ) × (ws ≡ take j vs)

  read_wire : Option Wire → ℕ → (ℕ → List Wire) → List Wire
  read_wire none accepts more = more accepts
  read_wire (some wire) zero more = []
  read_wire (some wire) (suc accepts) more = wire ∷ more accepts

  read_connection-got :
      (fuel accepts : ℕ) (s payload rest : Bytes)
      → read_frame s ≡ got payload rest
      → read_connection C (suc fuel) accepts s
        ≡ read_wire (C.from_slice payload) accepts (λ a. read_connection C fuel a rest)
  unfolding read_connection read_wire
  read_connection-got fuel accepts s payload rest e =
      rw (e, read_connection) (by_wire (C.from_slice payload) accepts)
    where
      by_wire :
          (w : Option Wire) (n : ℕ)
          → elim w as (λ _. List Wire) [
            | none ↦ read_connection C fuel n rest
            | some wire ↦ elim n as (λ _. List Wire) [
              | zero ↦ []
              | suc k ↦ wire ∷ read_connection C fuel k rest
            ]
          ]
            ≡ read_wire w n (λ a. read_connection C fuel a rest)
      by_wire none n = refl
      by_wire (some wire) zero = refl
      by_wire (some wire) (suc n) = refl

  read_connection-ended :
      (fuel accepts : ℕ) (s : Bytes)
      → read_frame s ≡ ended
      → read_connection C (suc fuel) accepts s ≡ []
  unfolding read_connection
  read_connection-ended fuel accepts s e = rw (e, read_connection) refl

  read_connection-failed :
      (fuel accepts : ℕ) (s : Bytes)
      → read_frame s ≡ failed
      → read_connection C (suc fuel) accepts s ≡ []
  unfolding read_connection
  read_connection-failed fuel accepts s e = rw (e, read_connection) refl

  read_wire-Prefix :
      (w : Option Wire) (accepts accepts' : ℕ) (more more' : ℕ → List Wire)
      → 0 < accepts'
      → ((a a' : ℕ) → accepts' ≤ a' + 1 → Prefix (more a) (more' a'))
      → Prefix (read_wire w accepts more) (read_wire w accepts' more')
  unfolding read_wire
  read_wire-Prefix none accepts accepts' more more' h ih = ih accepts accepts' (omega arith)
  read_wire-Prefix (some wire) zero accepts' more more' h ih = (0, refl)
  read_wire-Prefix (some wire) (suc a) zero more more' h ih = absurd (omega arith)
  read_wire-Prefix (some wire) (suc a) (suc a') more more' h ih =
      let (j, e) = ih a a' (omega arith) in (suc j, ap (λ ws. wire ∷ ws) e)

  pub read_connection-take :
      (fuel fuel' accepts accepts' k : ℕ) (s : Bytes)
      → fuel ≤ fuel'
      → length s ≤ accepts'
      → Prefix (read_connection C fuel accepts (take k s)) (read_connection C fuel' accepts' s)
  unfolding read_connection
  read_connection-take zero fuel' accepts accepts' k s h room = (0, refl)
  read_connection-take (suc fuel) zero accepts accepts' k s h room = absurd (omega arith)
  read_connection-take (suc fuel) (suc fuel') accepts accepts' k s h room =
      by_frames (read_frame (take k s)) (read_frame s) refl refl (read_frame-take k s)
        λ a a' j r l. read_connection-take fuel fuel' a a' j r (omega arith) l
    where
      by_frames :
          (x y : ReadFrame)
          → read_frame (take k s) ≡ x
          → read_frame s ≡ y
          → CutOff x y
          → ((a a' j : ℕ) (r : Bytes)
              → length r ≤ a'
              → Prefix (read_connection C fuel a (take j r)) (read_connection C fuel' a' r))
          → Prefix
              (read_connection C (suc fuel) accepts (take k s))
              (read_connection C (suc fuel') accepts' s)
      by_frames (got p r) (got p' r') e e' (same, j, cut) ih =
          let shorter = length-read_frame s p' r' e' in
          rw
            (
              read_connection-got fuel accepts (take k s) p r e,
              read_connection-got fuel' accepts' s p' r' e',
              same,
              cut,
            )
            (read_wire-Prefix (C.from_slice p') accepts accepts' _ _ (omega arith)
              λ a a' l. ih a a' j r' (omega arith))
      by_frames (got p r) ended e e' v ih = absurd v
      by_frames (got p r) failed e e' v ih = absurd v
      by_frames ended y e e' v ih = (0, read_connection-ended fuel accepts (take k s) e)
      by_frames failed y e e' v ih = (0, read_connection-failed fuel accepts (take k s) e)

module _ (C : WireCodec) where
  -- What the reader gets of each connection, in their order, if only so many of its first bytes
  -- arrive and the driver takes only so many of its messages.
  abbrev pub cut_received : List (ℕ × ℕ) → List Bytes → List Wire
  cut_received [] ss = []
  cut_received (cut ∷ cuts) [] = []
  cut_received ((arrive, accepts) ∷ cuts) (s ∷ ss) =
      read_connection C (suc (length s)) accepts (take arrive s) ++ cut_received cuts ss

  pub cut_received-IsSublist :
      (cuts : List (ℕ × ℕ)) (ss : List Bytes) → IsSublist (cut_received cuts ss) (all_received C ss)
  cut_received-IsSublist [] ss = IsSublist-nil (all_received C ss)
  cut_received-IsSublist (cut ∷ cuts) [] = IsSublist-nil []
  cut_received-IsSublist ((arrive, accepts) ∷ cuts) (s ∷ ss) =
      let (j, e) =
        read_connection-take C (suc (length s)) (suc (length s)) accepts (length s) arrive s
          (omega arith) (omega arith) in
      IsSublist-append _ (received C s) (cut_received cuts ss) (all_received C ss)
        (rw e (take-IsSublist j (received C s))) (cut_received-IsSublist cuts ss)
