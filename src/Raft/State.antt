-- ===== src/Raft/State.antt =====
-- src/raft/state.rs: roles, a leader's progress table and a candidate's vote tally.
use ferrium.Common.{
  ℕ, ◌+◌, Bool, false, ◌||◌, List, [], ◌∷◌, length, str_eq, HashMap, lookup, insert, if◌then◌else◌,
  u64,
}
use ferrium.Raft.Message.{NodeId}
use mathlib.Core.Option

pub data Role : Type 0 where
  follower candidate leader : Role

pub record LeaderProgress : Type 0 where
  pub next_index : HashMap ℕ
  pub match_index : HashMap ℕ

abbrev pub no_progress : LeaderProgress
no_progress = record { next_index = []; match_index = [] }

-- The loop of `reset`.
unfoldable pub reset_loop : List NodeId → ℕ → LeaderProgress → LeaderProgress
reset_loop [] last_log_index p = p
reset_loop (peer ∷ peers) last_log_index p = reset_loop peers last_log_index (record {
  next_index = insert peer (u64 (last_log_index + 1)) p.next_index;
  match_index = insert peer 0 p.match_index;
})

unfoldable pub reset : List NodeId → ℕ → LeaderProgress → LeaderProgress
unfolding reset_loop
reset peers last_log_index p = reset_loop peers last_log_index no_progress

unfoldable pub next_index : LeaderProgress → NodeId → ℕ
next_index p peer = Option.get_or (lookup peer p.next_index) 1

-- `match_index.get(peer).copied().unwrap_or(0)`, as `advance_commit` reads it.
unfoldable pub match_index : LeaderProgress → NodeId → ℕ
match_index p peer = Option.get_or (lookup peer p.match_index) 0

unfoldable pub set_next_index : NodeId → ℕ → LeaderProgress → LeaderProgress
set_next_index peer index p = record p { next_index = insert peer index p.next_index }

unfoldable pub set_match_index : NodeId → ℕ → LeaderProgress → LeaderProgress
set_match_index peer index p = record p { match_index = insert peer index p.match_index }

-- The set of granted votes, as a list without repetition.
pub record VoteTally : Type 0 where
  pub granted : List NodeId

abbrev pub no_votes : VoteTally
no_votes = record { granted = [] }

unfoldable pub contains : List NodeId → NodeId → Bool
contains [] v = false
contains (w ∷ ws) v = str_eq w v || contains ws v

unfoldable pub clear : VoteTally → VoteTally
clear t = record { granted = [] }

unfoldable pub record_vote : NodeId → VoteTally → VoteTally × ℕ
unfolding contains
record_vote voter t =
    let ws = (if contains t.granted voter then t.granted else voter ∷ t.granted) in
    (record { granted = ws }, length ws)

unfoldable pub count : VoteTally → ℕ
count t = length t.granted
