-- ===== src/Client.antt =====
-- src/net/client.rs: a client connection; and the handle of src/server.rs through which it reaches
-- the rest of the node. `W` is the state of that rest: the engine, the counters and the driver.
pub mod Connection
pub mod Chunks
pub mod Pipeline
pub mod Lone
pub mod Sessions
pub mod Turns
pub mod Several
pub mod Started
pub mod Serving
use ferrium.Common.{ℕ, Option, none, some, List, [], ◌∷◌, ◌++◌, Bytes, bytes}
use ferrium.Raft.Message.{NodeId}
use ferrium.Storage.Engine
use ferrium.Storage.Engine.{MemoryEngine}
use ferrium.Storage.Apply.{WriteCommand}
use ferrium.Storage.Apply
use ferrium.Protocol.Decimal.{pos, decimal}
use ferrium.Protocol.Resp.{Frame, simple, error, integer, bulk, null, array, Frames, end, item}
use ferrium.Protocol.Error.{not_leader, client_message}
use ferrium.Protocol.Command.{
  Command, ping, get, set, del, cluster_status, cluster_members, command, Result, ok, err,
  from_frame,
}
use ferrium.Server.{ProposeOutcome, committed, refused, ClusterStatus, MetricsInner, incr}

-- `Handle`. A message to the driver is sent and its answer awaited in one step, in which the rest
-- of the node goes on: `none` means that the driver is gone, an answer `none` that it dropped the
-- channel. Members are the texts of their ids and addresses.
pub record Handle (W : Type 0) : Type 0 where
  pub storage : W → MemoryEngine
  pub on_metrics : (MetricsInner → MetricsInner) → W → W
  pub members : List (Bytes × Bytes)
  pub send_propose : WriteCommand → W → Option (Option ProposeOutcome × W)
  pub send_status : W → Option (Option ClusterStatus × W)

unfoldable pub not_leader_frame : Option NodeId → Frame
not_leader_frame to = error (bytes "ERR " ++ client_message (not_leader to))

unfoldable pub status_text : ClusterStatus → Bytes
status_text s =
    bytes "id="
    ++ s.id
    ++ bytes " role="
    ++ s.role
    ++ bytes " term="
    ++ decimal s.term
    ++ bytes " leader="
    ++ elim s.leader [ none ↦ bytes "none" | some id ↦ id ]
    ++ bytes " commit="
    ++ decimal s.commit_index
    ++ bytes " size="
    ++ decimal s.cluster_size

unfoldable pub member_frames : List (Bytes × Bytes) → Frames
member_frames [] = end
member_frames ((id, addr) ∷ ms) = item (bulk (id ++ bytes "@" ++ addr)) (member_frames ms)

module _ {W : Type 0} where
  -- The answer to a proposal; in the state `w`, if the driver is gone.
  unfoldable pub awaited : Option (Option ProposeOutcome × W) → W → ProposeOutcome × W
  awaited none w = (refused none, w)
  awaited (some (none, w')) w = (refused none, w')
  awaited (some (some outcome, w')) w = (outcome, w')

  -- `Handle::propose`
  unfoldable pub propose : Handle W → WriteCommand → W → ProposeOutcome × W
  propose h cmd w = awaited (h.send_propose cmd w) w

  -- `Handle::status`
  unfoldable pub status : Handle W → W → Option ClusterStatus × W
  status h w = elim (h.send_status w) [ none ↦ (none, w) | some r ↦ r ]

  -- The reply to a write, `done` if it is committed.
  unfoldable pub write_reply : Frame → ProposeOutcome × W → Frame × W
  write_reply done (committed, w) = (done, w)
  write_reply done (refused to, w) = (not_leader_frame to, w)

  unfoldable pub status_reply : Option ClusterStatus × W → Frame × W
  status_reply (some s, w) = (bulk (status_text s), w)
  status_reply (none, w) = (error (bytes "ERR driver unavailable"), w)

  unfoldable pub dispatch : Handle W → Command → W → Frame × W
  dispatch h (ping (some payload)) w = (bulk payload, w)
  dispatch h (ping none) w = (simple (bytes "PONG"), w)
  dispatch h (get key) w =
      let w' = h.on_metrics (λ m. record m { gets_total = incr m.gets_total }) w in
      (elim (Engine.get (h.storage w') key) [ some value ↦ bulk value | none ↦ null ], w')
  dispatch h (set key value) w =
      let w' = h.on_metrics (λ m. record m { sets_total = incr m.sets_total }) w in
      write_reply (simple (bytes "OK")) (propose h (Apply.set key value) w')
  dispatch h (del keys) w =
      let w' = h.on_metrics (λ m. record m { dels_total = incr m.dels_total }) w in
      write_reply (integer (pos 1)) (propose h (Apply.del keys) w')
  dispatch h cluster_status w = status_reply (status h w)
  dispatch h cluster_members w = (array (member_frames h.members), w)
  dispatch h command w = (array end, w)

  -- The reply to a frame.
  unfoldable pub answer_parsed : Handle W → Result Command → W → Frame × W
  answer_parsed h (ok c) w = dispatch h c w
  answer_parsed h (err e) w = (error (bytes "ERR " ++ client_message e), w)

  unfoldable pub answer : (Frame → Bytes) → Handle W → Frame → W → Frame × W
  answer debug h f w = answer_parsed h (from_frame debug f) w
