-- ===== src/Protocol/Error.antt =====
-- src/error.rs: the errors, and the line that a client is sent for one.
use ferrium.Common.{Option, none, some, ◌++◌, Bytes, bytes}

-- An I/O error is its text, which the standard library writes.
pub data Error : Type 0 where
  io : (text : Bytes) → Error
  protocol : (msg : Bytes) → Error
  not_leader : (leader : Option Bytes) → Error
  unknown_command : (name : Bytes) → Error
  wrong_arity : (name : Bytes) → Error
  storage : (msg : Bytes) → Error
  cluster : (msg : Bytes) → Error

-- The text that the `#[error]` attributes give.
unfoldable pub to_string : Error → Bytes
to_string (io text) = bytes "io error: " ++ text
to_string (protocol msg) = bytes "protocol error: " ++ msg
to_string (not_leader leader) = bytes "not leader"
to_string (unknown_command name) = bytes "unknown command '" ++ name ++ bytes "'"
to_string (wrong_arity name) = bytes "wrong number of arguments for '" ++ name ++ bytes "'"
to_string (storage msg) = bytes "storage error: " ++ msg
to_string (cluster msg) = bytes "cluster error: " ++ msg

unfoldable pub client_message : Error → Bytes
client_message (not_leader (some leader)) = bytes "MOVED " ++ leader
client_message (not_leader none) = bytes "CLUSTERDOWN no known leader"
client_message (io text) = to_string (io text)
client_message (protocol msg) = to_string (protocol msg)
client_message (unknown_command name) = to_string (unknown_command name)
client_message (wrong_arity name) = to_string (wrong_arity name)
client_message (storage msg) = to_string (storage msg)
client_message (cluster msg) = to_string (cluster msg)
