-- ===== src/Examples/Nets.antt =====
-- The theorems on the peer transport and the configuration at concrete inputs.
use ferrium.Common.{
  IsSublist, ℕ, ◌++◌, length, take, drop, take-append, drop-append, true, false, if◌then◌else◌,
  ◌==◌, Bool, Option, none, some, List, [], ◌∷◌, Bytes, bytes, ◌≡◌, refl, arith,
}
use ferrium.Raft.Message.{
  NodeId, Message, RequestVoteReply, request_vote, request_vote_reply, append_entries,
  append_entries_reply, install_snapshot, install_snapshot_reply,
}
use ferrium.Net.Config.{Config, effective_raft_addr}
use ferrium.Net.Peer.{
  Write, written, broken, Attempt, Wire, WireCodec, write_u32, write_frame, connect, write_on,
  link_one, peer_link, read_connection,
}
use ferrium.Net.Partial.{all_received}
use ferrium.Net.Cut.{cut_received}
use ferrium.Net.Breaks.{Breaks, IsAttempt, streams, through, all_received-streams}
use ferrium.Net.Link.{wires, read_connection-peer_link}

abbrev as_wire : NodeId → ℕ → NodeId → Bool → Wire
as_wire from term voter granted = record {
  from = from;
  message = request_vote_reply (record { term = term; voter_id = voter; vote_granted = granted });
}

-- A coding that has a text for replies to vote requests only.
unfoldable text_of : NodeId → Message → Option Bytes
text_of from (request_vote_reply m) =
    some (m.term ∷ (if m.vote_granted then 1 else 0) ∷ length m.voter_id ∷ m.voter_id ++ from)
text_of from _ = none

unfoldable read_text : Bytes → Option Wire
read_text (term ∷ granted ∷ l ∷ s) = some (as_wire (drop l s) term (take l s) (granted == 1))
read_text _ = none

read_text-vote :
    (from : NodeId) (m : RequestVoteReply) (b : Bytes)
    → text_of from (request_vote_reply m) ≡ some b
    → read_text b ≡ some (record { from = from; message = request_vote_reply m })
unfolding text_of read_text
read_text-vote from m b e =
    let same : m.term ∷ (if m.vote_granted then 1 else 0) ∷ length m.voter_id ∷ m.voter_id ++ from
        ≡ b =
      cc in
    rw (← same, take-append m.voter_id from, drop-append m.voter_id from) (by_vote m.vote_granted)
  where
    by_vote :
        (v : Bool)
        → some (as_wire from m.term m.voter_id ((if v then 1 else 0) == 1))
          ≡ some (as_wire from m.term m.voter_id v)
    by_vote true = refl
    by_vote false = refl

read_text-text_of :
    (from : NodeId) (m : Message) (b : Bytes)
    → text_of from m ≡ some b
    → read_text b ≡ some (record { from = from; message = m })
unfolding text_of
read_text-text_of from (request_vote_reply m) b e = read_text-vote from m b e
read_text-text_of from (request_vote m) b e = cc
read_text-text_of from (append_entries m) b e = cc
read_text-text_of from (append_entries_reply m) b e = cc
read_text-text_of from (install_snapshot m) b e = cc
read_text-text_of from (install_snapshot_reply m) b e = cc

abbrev vote_text : WireCodec
vote_text = record {
  to_vec = λ w. text_of w.from w.message;
  from_slice = read_text;
  from_slice-to_vec = λ w b e. read_text-text_of w.from w.message b e;
}

abbrev vote : Message
vote = request_vote_reply (record { term = 3; voter_id = bytes "n1"; vote_granted = true })

-- A node whose transport address is not given; the port wraps around.
abbrev pub config1 : Config
config1 = record {
  id = bytes "n1";
  addr = record { host = bytes "127.0.0.1"; port = 60000 };
  raft_addr = none;
  data_dir = bytes "./data";
  join = none;
  peers = [];
  metrics_addr = none;
  tls = false;
  tls_cert = none;
  tls_key = none;
}

effective_raft_addr-wraps : (effective_raft_addr config1).port ≡ 4464
unfolding effective_raft_addr
effective_raft_addr-wraps = refl

abbrev vote_bytes : Bytes
vote_bytes = 3 ∷ 1 ∷ 2 ∷ bytes "n1n1"

-- What `n1` has written when two messages are through.
abbrev sent : Bytes
sent = write_frame (vote_bytes) ++ write_frame (vote_bytes)

read_connection-peer_link_example :
    read_connection vote_text 30 9 sent ≡ wires vote_text (bytes "n1") (vote ∷ vote ∷ [])
unfolding text_of peer_link link_one connect write_on write_frame write_u32
read_connection-peer_link_example =
    read_connection-peer_link vote_text (bytes "n1") (vote ∷ vote ∷ []) sent 30 9
      ((vote_bytes, refl, omega arith), ((vote_bytes, refl, omega arith), tt)) refl (omega arith)

-- The first of three messages breaks the connection behind five bytes, the second finds no
-- connection, the third goes through on a new one.
abbrev attempts : List (Attempt × Message)
attempts =
    (record { connects = true; writes = broken (take 5 (write_frame vote_bytes)) }, vote)
    ∷ (record { connects = false; writes = written }, vote)
    ∷ (record { connects = true; writes = written }, vote)
    ∷ []

vote-IsAttempt :
    (connects : Bool) (w : Write)
    → Breaks vote_text (bytes "n1") w (write_frame vote_bytes)
    → IsAttempt vote_text (bytes "n1") (record { connects = connects; writes = w }, vote)
unfolding text_of
vote-IsAttempt connects w h b e = let same : vote_bytes ≡ b = cc e in rw (← same) (omega arith, h)

abbrev streams1 : List Bytes
streams1 =
    streams vote_text (bytes "n1")
      (peer_link vote_text (bytes "n1") attempts (record { open_one = none; broken_ones = [] }))

all_received-streams_example :
    (all_received vote_text streams1
      ≡ wires vote_text (bytes "n1") (through vote_text (bytes "n1") false attempts))
    × ((cuts : List (ℕ × ℕ))
        → IsSublist
            (cut_received vote_text cuts streams1)
            (wires vote_text (bytes "n1") (through vote_text (bytes "n1") false attempts)))
unfolding write_frame write_u32
all_received-streams_example = all_received-streams vote_text (bytes "n1") attempts (
  vote-IsAttempt true (broken (take 5 (write_frame vote_bytes))) (5, omega arith, refl),
  (vote-IsAttempt false written tt, (vote-IsAttempt true written tt, tt)),
)
