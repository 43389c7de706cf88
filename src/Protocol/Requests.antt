-- ===== src/Protocol/Requests.antt =====
-- src/protocol/command.rs: the requests that clients send for the commands, and what they are read
-- as.
use ferrium.Common.{
  &&-eq-true, true, false, none, some, List, [], ◌∷◌, ◌++◌, map, Bytes, bytes, length, All, ◌<◌,
  ◌≡◌, refl, Option-cases, ℕ, ap, ◌∙◌, ◌⊎◌, inl, inr, arith, append_assoc, str_eq, eq_of_str_eq,
  leb, ◌&&◌, zero, suc,
}
use ferrium.Protocol.Utf8.{lead, is_utf8_from, is_utf8, lossy_from, from_utf8_lossy}
use ferrium.Protocol.Resp.{Frame, bulk, array, Frames, item, bulks}
use ferrium.Protocol.Command.{
  Command, ping, get, set, del, cluster_status, cluster_members, command, Result, ok, err, ◌>>=◌,
  to_ascii_uppercase, assemble, assemble_ping, assemble_get, assemble_set, assemble_del,
  assemble_cluster, subcommand, exact1, exact2, is_write, bulk_to_bytes, collect, from_items,
  from_frame,
}

mutual
  unfolding is_utf8_from lossy_from

  lossy-is_utf8 : (s pending : Bytes) → is_utf8_from none s ≡ true → lossy_from none pending s ≡ s
  lossy-is_utf8 [] pending h = refl
  lossy-is_utf8 (b ∷ s) pending h = elim (Option-cases (lead b)) [
    | inl e ↦ ground (arith, lossy-is_utf8 s [])
    | inr (t, e) ↦
        ground (arith, lossy-is_utf8 s [], lossy-is_utf8_from t.low t.high t.more s (b ∷ []))
  ]

  -- In the middle of a character, `pending` is put in front of the rest.
  lossy-is_utf8_from :
      (l u m : ℕ) (s pending : Bytes)
      → is_utf8_from (some (record { low = l; high = u; more = m })) s ≡ true
      → lossy_from (some (record { low = l; high = u; more = m })) pending s ≡ pending ++ s
  lossy-is_utf8_from l u m [] pending h = cc
  lossy-is_utf8_from l u zero (b ∷ s) pending h =
      let (w, r) = &&-eq-true (leb l b && leb b u) (is_utf8_from none s) h in
      rw w (
        ap (λ t. (pending ++ b ∷ []) ++ t) (lossy-is_utf8 s [] r) ∙ append_assoc pending (b ∷ []) s)
  lossy-is_utf8_from l u (suc m) (b ∷ s) pending h =
      let (w, r) = &&-eq-true (leb l b && leb b u) _ h in
      rw w
        (lossy-is_utf8_from 0x80 0xBF m s (pending ++ b ∷ []) r ∙ append_assoc pending (b ∷ []) s)

-- The words of the request for a command.
unfoldable pub request : Command → List Bytes
request (ping none) = bytes "PING" ∷ []
request (ping (some m)) = bytes "PING" ∷ m ∷ []
request (get key) = bytes "GET" ∷ key ∷ []
request (set key value) = bytes "SET" ∷ key ∷ value ∷ []
request (del keys) = bytes "DEL" ∷ keys
request cluster_status = bytes "CLUSTER" ∷ bytes "STATUS" ∷ []
request cluster_members = bytes "CLUSTER" ∷ bytes "MEMBERS" ∷ []
request command = bytes "COMMAND" ∷ []

abbrev IsUtf8 : Bytes → Type 0
IsUtf8 s = is_utf8 s ≡ true

-- Keys are UTF-8, and DEL has one.
unfoldable pub IsRequest : Command → Type 0
IsRequest (get key) = IsUtf8 key
IsRequest (set key value) = IsUtf8 key
IsRequest (del keys) = (0 < length keys) × All IsUtf8 keys
IsRequest _ = Unit

map-lossy : (keys : List Bytes) → All IsUtf8 keys → map from_utf8_lossy keys ≡ keys
map-lossy [] h = refl
map-lossy (k ∷ keys) (h, hs) = rw (lossy-is_utf8 k [] h, map-lossy keys hs) refl

collect-bulks : (debug : Frame → Bytes) (ws : List Bytes) → collect debug (bulks ws) ≡ ok ws
unfolding collect bulk_to_bytes
collect-bulks debug [] = refl
collect-bulks debug (w ∷ ws) = rw (collect-bulks debug ws) refl

-- The request that a client sends for a command is read as that command, provided keys are UTF-8
-- and a DEL has at least one.
pub from_frame-request :
    (debug : Frame → Bytes) (c : Command)
    → IsRequest c
    → from_frame debug (array (bulks (request c))) ≡ ok c
unfolding from_frame from_items collect bulk_to_bytes request IsRequest assemble assemble_ping
    assemble_get assemble_set assemble_del assemble_cluster subcommand exact1 exact2
    to_ascii_uppercase lossy_from str_eq
from_frame-request debug (ping none) h = refl
from_frame-request debug (ping (some m)) h = refl
from_frame-request debug (get key) h = ap (λ k. ok (get k)) (lossy-is_utf8 key [] h)
from_frame-request debug (set key value) h = ap (λ k. ok (set k value)) (lossy-is_utf8 key [] h)
from_frame-request debug (del []) (h, _) = absurd (omega arith)
from_frame-request debug (del (k ∷ ks)) (_, (h, hs)) =
    rw (collect-bulks debug ks) (ap (λ l. ok (del l)) (map-lossy (k ∷ ks) (h, hs)))
from_frame-request debug cluster_status h = refl
from_frame-request debug cluster_members h = refl
from_frame-request debug command h = refl

reads_ping : (args : List Bytes) (c : Command) → assemble_ping args ≡ ok c → is_write c ≡ false
unfolding assemble_ping is_write
reads_ping [] c e = grind arith
reads_ping (a ∷ []) c e = grind arith
reads_ping (a ∷ b ∷ args) c e = grind arith

reads_get : (args : List Bytes) (c : Command) → assemble_get args ≡ ok c → is_write c ≡ false
unfolding assemble_get exact1 is_write
reads_get [] c e = grind arith
reads_get (a ∷ []) c e = grind arith
reads_get (a ∷ b ∷ args) c e = grind arith

reads_cluster : (sub : Bytes) (c : Command) → assemble_cluster sub ≡ ok c → is_write c ≡ false
unfolding assemble_cluster is_write
reads_cluster sub c e = ground arith

assemble-is_write :
    (name : Bytes) (args : List Bytes) (c : Command)
    → assemble name args ≡ ok c
    → is_write c ≡ true
    → (name ≡ bytes "SET") ⊎ (name ≡ bytes "DEL")
unfolding assemble is_write
assemble-is_write name args c e w = ground (
  arith,
  eq_of_str_eq name (bytes "SET"),
  eq_of_str_eq name (bytes "DEL"),
  reads_ping args c,
  reads_get args c,
  reads_cluster (subcommand args) c,
)

-- A request that is read as a write has the name SET or DEL, up to the case of its letters.
from_frame-is_write :
    (debug : Frame → Bytes) (name : Bytes) (xs : Frames) (c : Command)
    → from_frame debug (array (item (bulk name) xs)) ≡ ok c
    → is_write c ≡ true
    → (to_ascii_uppercase (from_utf8_lossy name) ≡ bytes "SET")
      ⊎ (to_ascii_uppercase (from_utf8_lossy name) ≡ bytes "DEL")
unfolding from_frame from_items bulk_to_bytes
from_frame-is_write debug name xs c e w = from_rest (collect debug xs) e
  where
    from_rest :
        (rest : Result (List Bytes))
        → (rest >>= assemble (to_ascii_uppercase (from_utf8_lossy name))) ≡ ok c
        → (to_ascii_uppercase (from_utf8_lossy name) ≡ bytes "SET")
          ⊎ (to_ascii_uppercase (from_utf8_lossy name) ≡ bytes "DEL")
    from_rest (ok args) e = assemble-is_write _ args c e w
    from_rest (err x) e = cc
