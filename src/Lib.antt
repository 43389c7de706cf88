-- ===== src/Lib.antt =====
-- ferrium: a Raft-replicated key-value store (Rust).
--
-- A node is a pure state machine, src/raft, that consumes ticks, messages and proposals and gives
-- out messages and committed commands; a driver (src/server.rs) applies the commands to a storage
-- engine (src/storage, src/apply.rs), moves the messages and answers the clients, whose requests come
-- as RESP2 frames (src/protocol). Modelled are:
--
--   Raft/Log.antt           src/raft/log.rs      RaftLog: entries behind a snapshot point
--   Raft/Message.antt       src/raft/message.rs  the messages
--   Raft/State.antt         src/raft/state.rs    LeaderProgress, VoteTally, Role
--   Raft/Node.antt          src/raft/node.rs     the record RaftNode and its outputs; the methods are
--     Node/Replicate.antt     send_append, broadcast_append, advance_commit, apply_committed
--     Node/Roles.antt         become_follower, become_candidate, become_leader
--     Node/Handlers.antt      the handle_ methods
--     Node/Drive.antt         tick, propose, step, take_ready
--   Storage/Engine.antt     src/storage/engine.rs, src/storage/memory.rs
--   Storage/Apply.antt      src/apply.rs
--   Server.antt             src/server.rs, src/metrics.rs  the driver around the node
--   Server/Start.antt       src/server.rs        run: the driver and the members of a configuration
--   Server/Metrics.antt     src/metrics.rs       the text of the metrics, and serve_metrics' response
--   Client.antt             src/net/client.rs    dispatch, and Handle of src/server.rs
--   Client/Connection.antt  src/net/client.rs    handle_connection
--   Client/Serving.antt     src/server.rs, src/net/client.rs  serve_clients: a task for each client
--   Net/Peer.antt           src/net/peer.rs      frames, links and readers
--   Net/Config.antt         src/config.rs        Config, raft_addr, parse_peer
--   Sim.antt                src/sim.rs           SimCluster: new, step, run, run_until
--   Sim/Control.antt        src/sim.rs           its methods for tests
--   Protocol/Resp.antt      src/protocol/resp.rs  Frame, its encoder and its streaming decoder
--   Protocol/Command.antt   src/protocol/command.rs
--   Protocol/Error.antt     src/error.rs
--   Protocol/Utf8.antt, Protocol/Decimal.antt: what these use of the standard library
--
-- The other modules of these folders hold theorems, named for what they are about. Common has the
-- library names, tests on numbers, lists, byte strings and the map that stands for HashMap; Examples
-- has the theorems at concrete inputs, and tests.
--
-- A method with &mut self returns the new record, beside its result where it has one. Sums of u64
-- values wrap around at 2^64, as in a release build; counts of elements in memory (usize) do not,
-- since no collection is that long. Subtractions are those of the source, which tests first that
-- they do not go below zero. Strings and byte vectors are lists of bytes, HashMap is an association
-- list, HashSet a list without repetition. A for loop is a recursion on the list or the range; the
-- while loop of apply_committed runs on fuel, the distance from last_applied to commit_index, which
-- it uses up exactly. The decoder runs on one more than the length of its input, since each
-- nested item starts behind the tag of its array. A oneshot channel is a number, and what is sent is
-- kept in a list.
--
-- A client connection is a function of the pieces that its reads give; the rest of the node is a state
-- that a Handle changes, so that what other clients do in between is part of an answer of the driver.
-- The loop runs on one more than the length of the buffer, as does the reader of a peer's connection,
-- since a frame takes a byte at least. What the network does with a message of a link is an input of
-- peer_link. Client/Lone.antt puts the driver of a node without peers behind the handle, where each
-- proposal is answered in the round that it brings about, behind the rounds of ticks that are due.
-- Several clients are tasks that take turns of the loop of handle_connection in any order, with ticks
-- in between; a turn, with the answer of the driver that it awaits, is one step. The bytes of a link's
-- connections and those that arrive are two things: Net/Cut.antt reads the first of them. The driver's loop is a function of the events that wake it. SimCluster is a function on
-- the cluster that gives none where the source panics.
--
-- Parameters: the generator of the rand crate, with the documented range of gen_range (Rand),
-- serde_json's coding of commands and of messages, which read back what they wrote (Codec, WireCodec),
-- the standard library's parser of socket addresses (AddrSyntax), and the Debug text of a frame in a
-- message of src/protocol/command.rs. The text of a socket address is a parameter too.
--
-- Not modelled: the opening of sockets (probe among them), the spawning of the tasks of src/net and
-- src/server.rs, the shutdown signal, reads and writes of a client's socket that fail, and the parsing
-- of the command line (src/config.rs, src/main.rs).
pub mod Common
pub mod Storage
pub mod Raft
pub mod Protocol
pub mod Server
pub mod Client
pub mod Net
pub mod Sim
mod Examples
