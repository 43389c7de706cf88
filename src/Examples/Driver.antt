-- ===== src/Examples/Driver.antt =====
-- The theorems on the driver at a concrete input.
use ferrium.Common.{
  ℕ, zero, suc, ◌+◌, false, ◌==◌, if◌then◌else◌, Option, none, some, List, [], ◌∷◌, ◌++◌, Bytes,
  bytes, length, take, drop, take-append, drop-append, ◌≡◌, ◌≢◌, refl, ap,
}
use ferrium.Storage.Apply.{WriteCommand, set, del, Codec}
use ferrium.Raft.Node.{is_leader}
use ferrium.Raft.Log
use ferrium.Raft.Node.Drive.{take_ready, propose}
use ferrium.Raft.Node.Replicate.{apply_committed, maybe_compact, apply_loop, apply_one, pushed}
use ferrium.Server.{
  Driver, DriverMsg, propose_write, request, round, process_ready, on_event, handle_request,
  answer_propose, apply_all, apply_entry, resolve, update_metrics, drop_waiters,
}
use ferrium.Server.Answers.{asks, held, answered, held-round, answered-round}
use ferrium.Examples.Nodes.{fixed, node1}

-- A coding of commands: the lists with their lengths in front.
unfoldable pub encode_keys : List Bytes → Bytes
encode_keys [] = []
encode_keys (k ∷ ks) = length k ∷ k ++ encode_keys ks

unfoldable pub decode_keys : ℕ → Bytes → List Bytes
decode_keys zero s = []
decode_keys (suc n) [] = []
decode_keys (suc n) (l ∷ s) = take l s ∷ decode_keys n (drop l s)

unfoldable pub encode_command : WriteCommand → Bytes
encode_command (set key value) = 0 ∷ length key ∷ key ++ value
encode_command (del keys) = 1 ∷ length keys ∷ encode_keys keys

unfoldable pub decode_command : Bytes → Option WriteCommand
decode_command (kind ∷ l ∷ s) =
    if kind == 0 then some (set (take l s) (drop l s)) else some (del (decode_keys l s))
decode_command _ = none

decode_keys-encode_keys : (ks : List Bytes) → decode_keys (length ks) (encode_keys ks) ≡ ks
unfolding decode_keys encode_keys
decode_keys-encode_keys [] = refl
decode_keys-encode_keys (k ∷ ks) =
    rw (take-append k (encode_keys ks), drop-append k (encode_keys ks), decode_keys-encode_keys ks)
      refl

pub decode_command-encode_command : (c : WriteCommand) → decode_command (encode_command c) ≡ some c
unfolding decode_command encode_command
decode_command-encode_command (set key value) =
    rw (take-append key value, drop-append key value) refl
decode_command-encode_command (del keys) = ap (λ ks. some (del ks)) (decode_keys-encode_keys keys)

abbrev pub lengths : Codec
lengths = record {
  encode = encode_command;
  decode = decode_command;
  decode-encode = decode_command-encode_command;
}

-- No command has an empty text.
pub some_bytes : (cmd : WriteCommand) → encode_command cmd ≢ []
unfolding encode_command
some_bytes (set key value) e = cc
some_bytes (del keys) e = cc

-- The follower's driver.
abbrev pub driver1 : Driver ℕ
driver1 = record {
  node = node1;
  storage = record { map = [] };
  metrics = record {
    gets_total = 0;
    sets_total = 0;
    dels_total = 0;
    not_leader_total = 0;
    elections_won_total = 0;
    current_term = 0;
    is_leader = 0;
    commit_index = 0;
    log_len = 0;
  };
  waiters = [];
  was_leader = false;
  cluster_size = 3;
  to_peers = [];
  outcomes = [];
  statuses = [];
}

abbrev write1 : DriverMsg
write1 = propose_write (set (bytes "k") (bytes "v")) 7

held-round_example :
    held 7 (round fixed lengths (request write1) driver1)
    ≡ asks fixed lengths 7 (request write1) + held 7 driver1
held-round_example = held-round fixed lengths 7 (request write1) driver1

answered-round_example :
    answered 7 (round fixed lengths (request write1) driver1).outcomes
    ≡ asks fixed lengths 7 (request write1) + held 7 driver1
unfolding round process_ready on_event handle_request answer_propose apply_all update_metrics
    drop_waiters take_ready propose apply_committed apply_loop maybe_compact is_leader apply_one
    pushed Log.get apply_entry resolve
answered-round_example = answered-round fixed lengths 7 (request write1) driver1 refl
