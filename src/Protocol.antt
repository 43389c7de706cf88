-- ===== src/Protocol.antt =====
-- The client protocol, src/protocol, and the errors that are sent to clients, src/error.rs.
pub mod Utf8
pub mod Decimal
pub mod Digits
pub mod Resp
pub mod Progress
pub mod Sound
pub mod WellFormed
pub mod Streaming
pub mod RoundTrip
pub mod Error
pub mod Command
pub mod Requests
