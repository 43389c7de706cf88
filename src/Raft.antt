-- ===== src/Raft.antt =====
-- The consensus core, src/raft.
pub mod Log
pub mod Message
pub mod State
pub mod Node
pub mod Frames
pub mod Contracts
pub mod Terms
pub mod Votes
pub mod Run
pub mod Ready
pub mod Order
pub mod Quorum
pub mod Divergence
pub mod Leftover
pub mod LeaderLog
pub mod Replication
pub mod Commit
pub mod Handed
pub mod Inputs
pub mod Election
pub mod Single
pub mod Startup
pub mod Timers
