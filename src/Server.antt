-- ===== src/Server.antt =====
-- src/server.rs: the driver, which owns the Raft node; and src/metrics.rs, the counters it keeps.
-- A oneshot channel is its number: what is sent on channels and to peers is a list of outputs.
pub mod Acknowledged
pub mod Answers
pub mod Handover
pub mod Metrics
pub mod Promises
pub mod Proposals
pub mod Keys
pub mod Prompt
pub mod Single
pub mod Level
pub mod Start
use ferrium.Common.{
  ℕ, ◌+◌, Bool, true, false, not, ◌&&◌, if◌then◌else◌, u64, ◌==◌, Option, none, some, List, [], ◌∷◌,
  ◌++◌, Bytes, bytes,
}
use ferrium.Raft.Message.{
  NodeId, Message, InstallSnapshot, request_vote, request_vote_reply, append_entries,
  append_entries_reply, install_snapshot, install_snapshot_reply,
}
use ferrium.Raft.State.{Role, follower, candidate, leader}
use ferrium.Raft.Node
use ferrium.Raft.Node.{
  Rand, RaftNode, Ready, Envelope, Committed, command, snapshot, last_log_index,
}
use ferrium.Raft.Node.Drive.{Proposed, ok, not_leader, take_ready, propose, step, tick}
use ferrium.Storage.Engine
use ferrium.Storage.Engine.{MemoryEngine}
use ferrium.Storage.Apply.{WriteCommand, Codec, apply}

pub record MetricsInner : Type 0 where
  pub gets_total : ℕ
  pub sets_total : ℕ
  pub dels_total : ℕ
  pub not_leader_total : ℕ
  pub elections_won_total : ℕ
  pub current_term : ℕ
  pub is_leader : ℕ
  pub commit_index : ℕ
  pub log_len : ℕ

-- `fetch_add(1)`, which wraps around.
abbrev pub incr : ℕ → ℕ
incr counter = u64 (counter + 1)

pub data ProposeOutcome : Type 0 where
  committed : ProposeOutcome
  refused : (leader : Option NodeId) → ProposeOutcome

pub record ClusterStatus : Type 0 where
  pub id : NodeId
  pub role : Bytes
  pub term : ℕ
  pub leader : Option NodeId
  pub commit_index : ℕ
  pub cluster_size : ℕ

-- The number of a oneshot channel.
abbrev pub Sender : Type 0
Sender = ℕ

pub data DriverMsg : Type 0 where
  peer : NodeId → Message → DriverMsg
  propose_write : (command : WriteCommand) → (done : Sender) → DriverMsg
  get_status : (reply : Sender) → DriverMsg

abbrev pub Waiters : Type 0
Waiters = List (ℕ × List Sender)

pub record Driver (G : Type 0) : Type 0 where
  pub node : RaftNode G
  pub storage : MemoryEngine
  pub metrics : MetricsInner
  pub waiters : Waiters
  pub was_leader : Bool
  pub cluster_size : ℕ
  pub to_peers : List Envelope
  pub outcomes : List (Sender × ProposeOutcome)
  pub statuses : List (Sender × ClusterStatus)

-- `waiters.entry(index).or_default().push(done)`
unfoldable pub push_waiter : ℕ → Sender → Waiters → Waiters
push_waiter index done [] = (index, done ∷ []) ∷ []
push_waiter index done ((i, ws) ∷ rest) =
    let more = push_waiter index done rest in
    if i == index then (i, ws ++ done ∷ []) ∷ rest else (i, ws) ∷ more

-- `waiters.remove(&index)`: those of the index, and the others.
unfoldable pub remove_waiters : ℕ → Waiters → List Sender × Waiters
remove_waiters index [] = ([], [])
remove_waiters index ((i, ws) ∷ rest) =
    let (found, others) = remove_waiters index rest in
    if i == index then (ws, rest) else (found, (i, ws) ∷ others)

-- One outcome sent to each channel.
unfoldable pub send_all : List Sender → ProposeOutcome → List (Sender × ProposeOutcome)
send_all [] outcome = []
send_all (w ∷ ws) outcome = (w, outcome) ∷ send_all ws outcome

unfoldable pub fill_snapshot : MemoryEngine → Message → Message
fill_snapshot e (install_snapshot m) = install_snapshot (record m { contents = Engine.snapshot e })
fill_snapshot e (request_vote m) = request_vote m
fill_snapshot e (request_vote_reply m) = request_vote_reply m
fill_snapshot e (append_entries m) = append_entries m
fill_snapshot e (append_entries_reply m) = append_entries_reply m
fill_snapshot e (install_snapshot_reply m) = install_snapshot_reply m

unfoldable pub send_messages : MemoryEngine → List Envelope → List Envelope
send_messages e [] = []
send_messages e (m ∷ ms) = record m { message = fill_snapshot e m.message } ∷ send_messages e ms

unfoldable pub role_name : Role → Bytes
role_name leader = bytes "leader"
role_name candidate = bytes "candidate"
role_name follower = bytes "follower"

-- The loop that answers all waiters of a node that does not lead.
unfoldable pub fail_waiters : Option NodeId → Waiters → List (Sender × ProposeOutcome)
fail_waiters to [] = []
fail_waiters to ((i, ws) ∷ rest) = send_all ws (refused to) ++ fail_waiters to rest

module _ {G : Type 0} where
  unfoldable pub resolve : ℕ → ProposeOutcome → Driver G → Driver G
  resolve index outcome d =
      let (found, others) = remove_waiters index d.waiters in
      record d { waiters = others; outcomes = d.outcomes ++ send_all found outcome }

  unfoldable pub update_metrics : Driver G → Driver G
  update_metrics d =
      let leads = Node.is_leader d.node in
      let won =
        if leads && not d.was_leader
        then incr d.metrics.elections_won_total
        else d.metrics.elections_won_total in
      record d {
        was_leader = leads;
        metrics = record d.metrics {
          elections_won_total = won;
          current_term = d.node.current_term;
          is_leader = if leads then 1 else 0;
          commit_index = d.node.commit_index;
          log_len = last_log_index d.node;
        };
      }

  unfoldable pub status : Driver G → ClusterStatus
  status d = record {
    id = d.node.id;
    role = role_name d.node.role;
    term = d.node.current_term;
    leader = d.node.leader_id;
    commit_index = d.node.commit_index;
    cluster_size = d.cluster_size;
  }

  unfoldable pub drop_waiters : Driver G → Driver G
  drop_waiters d = if Node.is_leader d.node then d else record d {
    waiters = [];
    outcomes = d.outcomes ++ fail_waiters d.node.leader_id d.waiters;
  }

module _ {G : Type 0} (C : Codec) where
  unfoldable pub apply_entry : Committed → Driver G → Driver G
  apply_entry (command index c) d =
      let storage' : MemoryEngine = elim (C.decode c) [
        | some cmd ↦ (apply cmd d.storage).0
        | none ↦ d.storage
      ] in
      resolve index committed (record d { storage = storage' })
  apply_entry (snapshot entries) d = record d { storage = Engine.restore entries d.storage }

  unfoldable pub apply_all : List Committed → Driver G → Driver G
  apply_all [] d = d
  apply_all (c ∷ cs) d = apply_all cs (apply_entry c d)

  unfoldable pub process_ready : Driver G → Driver G
  process_ready d =
      let (node', ready) = take_ready d.node in
      let sent = d.to_peers ++ send_messages d.storage ready.messages in
      drop_waiters
        (update_metrics (apply_all ready.committed (record d { node = node'; to_peers = sent })))

module _ (R : Rand) (C : Codec) where
  open R use {StdRng}

  -- The driver after `propose`.
  unfoldable pub answer_propose :
      RaftNode StdRng × Proposed → Sender → Driver StdRng → Driver StdRng
  answer_propose (node', ok index) done d = record d {
    node = node';
    waiters = push_waiter index done d.waiters;
  }
  answer_propose (node', not_leader to) done d = record d {
    node = node';
    metrics = record d.metrics { not_leader_total = incr d.metrics.not_leader_total };
    outcomes = d.outcomes ++ (done, refused to) ∷ [];
  }

  unfoldable pub handle_request : DriverMsg → Driver StdRng → Driver StdRng
  handle_request (peer from message) d = record d { node = step R from message d.node }
  handle_request (propose_write cmd done) d = answer_propose (propose (C.encode cmd) d.node) done d
  handle_request (get_status reply) d = record d { statuses = d.statuses ++ (reply, status d) ∷ [] }

  -- What wakes the loop of `run` up.
  pub data Event : Type 0 where
    ticked : Event
    inbound : NodeId → Message → Event
    request : DriverMsg → Event

  unfoldable pub on_event : Event → Driver StdRng → Driver StdRng
  on_event ticked d = record d { node = tick R d.node }
  on_event (inbound from message) d = record d { node = step R from message d.node }
  on_event (request msg) d = handle_request msg d

  -- One round of the loop.
  unfoldable pub round : Event → Driver StdRng → Driver StdRng
  round e d = process_ready C (on_event e d)

  -- The rounds that the events bring about.
  unfoldable pub loop : List Event → Driver StdRng → Driver StdRng
  loop [] d = d
  loop (e ∷ es) d = loop es (round e d)
