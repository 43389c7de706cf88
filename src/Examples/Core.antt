-- ===== src/Examples/Core.antt =====
-- The theorems on nodes at concrete inputs.
use ferrium.Common.{
  str_eq, lookup, ltb, ℕ, ◌≤◌, ◌<◌, ◌≡◌, ◌≢◌, refl, arith, [], ◌∷◌, ◌++◌, bytes, none, some, true,
  false, max, if◌then◌else◌, ◌-◌, ◌⊎◌,
}
use mathlib.Core.Option
use ferrium.Raft.Log
use ferrium.Raft.Message
use ferrium.Raft.Message.{
  request_vote, append_entries, append_entries_reply, request_vote_reply, install_snapshot,
  InstallSnapshot,
}
use ferrium.Raft.State
use ferrium.Raft.State.{follower, candidate, leader, contains}
use ferrium.Raft.Node
use ferrium.Raft.Node.{RaftNode, default_config, majority, send}
use ferrium.Raft.Node.Drive.{step, propose, take_ready}
use ferrium.Raft.Node.Handlers.{grants, candidate_is_up_to_date}
use ferrium.Raft.Node.Replicate.{
  replicated_on, advance_commit, broadcast_append, broadcast_loop, send_append,
}
use ferrium.Raft.Terms.{current_term-step}
use ferrium.Raft.Votes.{deserves_vote, step-request_vote, second_vote}
use ferrium.Raft.Run.{ticked, proposed, run, react}
use ferrium.Raft.Election.{IsElected, run-IsElected}
use ferrium.Raft.Quorum.{majority-common}
use ferrium.Raft.Commit.{IsCommittable, advance_commit-IsCommittable, le-advance_commit}
use ferrium.Raft.Ready.{take_ready-take_ready}
use ferrium.Raft.Order.{Forward}
use ferrium.Raft.Order.Step.{step-Forward}
use ferrium.Raft.LeaderLog.{additions, react-log}
use ferrium.Raft.Replication.{term_at-replicated}
use ferrium.Raft.Divergence.{splice-below_snapshot}
use ferrium.Raft.Leftover.{propose_unreplicated}
use ferrium.Examples.Nodes.{fixed, entry, node1, node1-InOrder, node2, third, heartbeat, request}

step-Forward_example : Forward node1 (step fixed (bytes "n2") (append_entries third) node1)
step-Forward_example =
    step-Forward fixed (bytes "n2") (append_entries third) node1 node1-InOrder (omega arith)

run-IsElected_example :
    IsElected (run fixed (ticked ∷ ticked ∷ []) (Node.new fixed (bytes "n1") [] default_config))
run-IsElected_example = run-IsElected fixed (bytes "n1") [] default_config (ticked ∷ ticked ∷ [])

majority-common_example :
    (m : Message.NodeId) × (contains (bytes "n1" ∷ bytes "n2" ∷ []) m ≡ true)
    × (contains (bytes "n2" ∷ bytes "n3" ∷ []) m ≡ true)
unfolding contains majority str_eq
majority-common_example =
    majority-common node1 (bytes "n1" ∷ bytes "n2" ∷ []) (bytes "n2" ∷ bytes "n3" ∷ [])
      (refl, (refl, tt)) (refl, (refl, tt)) (refl, (refl, tt)) (refl, (refl, tt)) (omega arith)
      (omega arith)

advance_commit-IsCommittable_example :
    (((advance_commit node2).commit_index ≡ node2.commit_index)
      ⊎ IsCommittable node2 (advance_commit node2).commit_index)
    × (node2.commit_index ≤ (advance_commit node2).commit_index)
    × ((advance_commit node2).commit_index ≤ Log.last_index node2.log)
unfolding Log.last_index
advance_commit-IsCommittable_example =
    advance_commit-IsCommittable node2 refl (omega arith) (omega arith)

node2-third : IsCommittable node2 3
unfolding Log.term_at majority replicated_on State.match_index lookup str_eq
node2-third = (refl, omega arith)

le-advance_commit_example : 3 ≤ (advance_commit node2).commit_index
unfolding Log.last_index
le-advance_commit_example =
    le-advance_commit node2 refl (omega arith) (omega arith) 3 (omega arith) (omega arith)
      node2-third

take_ready-take_ready_example :
    (take_ready node1).1.committed
      ++ (take_ready (record (take_ready node1).0 { commit_index = 2 })).1.committed
    ≡ (take_ready (record node1 { commit_index = 2 })).1.committed
take_ready-take_ready_example =
    take_ready-take_ready node1 2 node1-InOrder (omega arith) (omega arith)

node2-leads : (react fixed (proposed (bytes "y")) node2).role ≡ leader
unfolding react propose advance_commit broadcast_append broadcast_loop send_append send
    State.next_index lookup str_eq Log.append
node2-leads = refl

react-log_example :
    (react fixed (proposed (bytes "y")) node2).log
    ≡ record node2.log { entries = node2.log.entries ++ additions (proposed (bytes "y")) node2 }
react-log_example = react-log fixed (proposed (bytes "y")) node2 tt node2-leads

current_term-step_example :
    (step fixed (bytes "n2") (append_entries third) node1).current_term ≡ max 2 2
unfolding Message.term
current_term-step_example = current_term-step fixed (bytes "n2") (append_entries third) node1

step-request_vote_example :
    ((step fixed (bytes "n3") (request_vote request) node1).outgoing
      ≡ []
        ++ record {
          to = bytes "n3";
          message = request_vote_reply (record {
            term = max 2 2;
            voter_id = bytes "n1";
            vote_granted = deserves_vote request node1;
          });
        }
          ∷ [])
    × ((step fixed (bytes "n3") (request_vote request) node1).voted_for ≡ (
        if deserves_vote request node1 then some (bytes "n3") else if ltb 2 2 then none else none))
step-request_vote_example = step-request_vote fixed (bytes "n3") request node1

-- `n1`, after it voted for `n2` in term 2.
abbrev voter : RaftNode ℕ
voter = record node1 { voted_for = some (bytes "n2") }

n2-ne-n3 : bytes "n2" ≢ request.candidate_id
n2-ne-n3 e = ground arith

request-is_up_to_date : candidate_is_up_to_date voter 2 1 ≡ true
unfolding candidate_is_up_to_date Log.last_term Log.last_index
request-is_up_to_date = refl

second_vote_example :
    (grants request voter ≡ false)
    × (grants request (step fixed (bytes "n2") (append_entries heartbeat) voter) ≡ true)
second_vote_example =
    second_vote fixed (bytes "n2") heartbeat request voter (bytes "n2") refl n2-ne-n3 refl refl refl
      request-is_up_to_date

matches-second : Log.matches node1.log 2 1 ≡ true
unfolding Log.matches Log.term_at
matches-second = refl

matches-sent :
    Log.matches node1.log (3 - 1) (Option.get_or (Log.term_at node2.log (3 - 1)) 0) ≡ true
unfolding Log.matches Log.term_at
matches-sent = refl

next-n1 : State.next_index node2.progress (bytes "n1") ≡ 3
unfolding State.next_index lookup str_eq
next-n1 = refl

is_third :
    (send_append (bytes "n1") node2).outgoing
    ≡ node2.outgoing ++ record { to = bytes "n1"; message = append_entries third } ∷ []
unfolding send_append send State.next_index lookup str_eq Log.term_at Log.entries_from
is_third = refl

term_at-replicated_example :
    Log.term_at (step fixed (bytes "n2") (append_entries third) node1).log 3
    ≡ Log.term_at node2.log 3
term_at-replicated_example =
    term_at-replicated fixed node2 node1 (bytes "n1") (bytes "n2") 3 (append_entries third) is_third
      next-n1 (omega arith) (omega arith) (omega arith) (omega arith) (omega arith) (omega arith)
      matches-sent 3 (omega arith) (omega arith)

matches-first : Log.matches node1.log 1 1 ≡ true
unfolding Log.matches Log.term_at
matches-first = refl

-- A leader that compacted its log up to index 2, of term 1, behind which stands an entry of term 2.
abbrev compacted : RaftNode ℕ
compacted = record node2 {
  log = record { entries = entry 2 ∷ []; snapshot_index = 2; snapshot_term = 1 };
  progress = State.no_progress;
}

splice-below_snapshot_example :
    (Log.matches compacted.log 0 7 ≡ true)
    × ((Log.splice 0 (entry 1 ∷ []) compacted.log).0
        ≡ record compacted.log { entries = entry 1 ∷ [] })
splice-below_snapshot_example =
    splice-below_snapshot compacted.log (entry 1) [] 7 (omega arith) (omega arith)

-- The leader of term 2 of two nodes, with one entry, which its follower has too, before another.
abbrev leader2 : RaftNode ℕ
leader2 = record node2 {
  peers = bytes "n1" ∷ [];
  log = record { entries = entry 1 ∷ []; snapshot_index = 0; snapshot_term = 0 };
  progress = record { next_index = (bytes "n1", 2) ∷ []; match_index = [] };
}

abbrev beat2 : Message.AppendEntries
beat2 = record heartbeat { leader_commit = 1 }

sent-leader2 :
    (send_append (bytes "n1") leader2).outgoing
    ≡ [] ++ record { to = bytes "n1"; message = append_entries beat2 } ∷ []
unfolding send_append send State.next_index lookup str_eq Log.term_at Log.entries_from
sent-leader2 = refl

longer-node1 : 1 < Log.last_index node1.log
unfolding Log.last_index
longer-node1 = omega arith

propose_unreplicated_example :
    (r : Message.AppendEntriesReply) × ((step fixed
        (bytes "n2")
        (append_entries beat2)
        node1).outgoing
      ≡ [] ++ record { to = bytes "n2"; message = append_entries_reply r } ∷ [])
    × ((step fixed (bytes "n2") (append_entries beat2) node1).log ≡ node1.log)
    × ((propose
          (bytes "y")
          (step fixed (bytes "n1") (append_entries_reply r) leader2)).0.commit_index
        ≡ 2)
propose_unreplicated_example =
    propose_unreplicated fixed leader2 node1 beat2 (bytes "y") refl refl sent-leader2 refl
      (omega arith) matches-first (omega arith) (omega arith) longer-node1
