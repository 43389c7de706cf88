-- ===== src/Raft/Leftover.antt =====
-- Leftover entries in src/raft/node.rs: what comes of a follower's reporting its last index, which
-- no message has compared, when it answers a heartbeat.
use ferrium.Common.{
  ℕ, ◌+◌, ◌-◌, ◌≤◌, ◌<◌, ◌≡◌, ap, ◌∙◌, arith, [], ◌∷◌, ◌++◌, true, some, Bytes, length,
  length-append, u64, u64_mod, lookup-insert, str_eq_iff, get_elem?, get_elem?-append_right,
}
use mathlib.Core.Option
use ferrium.Raft.Log
use ferrium.Raft.Log.{LogEntry}
use ferrium.Raft.Log.Index.{Fits, last_index_lem, term_at_lem, entry_term}
use ferrium.Raft.Message
use ferrium.Raft.Message.{
  NodeId, AppendEntries, AppendEntriesReply, Message, append_entries, append_entries_reply,
}
use ferrium.Raft.State
use ferrium.Raft.State.{leader, LeaderProgress}
use ferrium.Raft.Node.{Rand, RaftNode, majority, cluster_size}
use ferrium.Raft.Node.Roles.{become_follower}
use ferrium.Raft.Node.Handlers.{accept_append, handle_append_entries, handle_append_entries_reply}
use ferrium.Raft.Node.Drive.{dispatch, step, propose}
use ferrium.Raft.Node.Replicate.{send_append, advance_commit, replicated_on}
use ferrium.Raft.Frames.{
  append_message, send_append-message, envelopes, broadcast_append_lem, advance_commit_lem,
  advanced,
}
use ferrium.Raft.Inputs.{appended, propose_leader}
use ferrium.Raft.Commit.{IsCommittable, advance_commit-IsCommittable, le-advance_commit}
use ferrium.Raft.Single.{end_of_log}

-- What a follower answers that has accepted a heartbeat.
abbrev heartbeat_reply : {G : Type 0} → ℕ → RaftNode G → AppendEntriesReply
heartbeat_reply t f = record {
  term = t;
  follower_id = f.id;
  success = true;
  match_index = Log.last_index f.log;
  conflict_index = 0;
}

-- The leader's view of its followers behind an answer.
abbrev noted : NodeId → ℕ → LeaderProgress → LeaderProgress
noted from i p = State.set_next_index from (u64 (i + 1)) (State.set_match_index from i p)

match_index-noted :
    (from : NodeId) (i : ℕ) (p : LeaderProgress) → State.match_index (noted from i p) from ≡ i
unfolding State.match_index State.set_next_index State.set_match_index
match_index-noted from i p =
    ground (arith, lookup-insert from from i p.match_index, str_eq_iff from from)

module _ {G : Type 0} (c : Bytes) (n : RaftNode G) (room : end_of_log n + 2 < u64_mod) where
  abbrev e : LogEntry
  e = record { term = n.current_term; command = c }

  appended-Fits : Fits (appended c n).log
  unfolding Log.append
  appended-Fits = omega (arith, length-append n.log.entries (e ∷ []))

  last_index-appended : Log.last_index (appended c n).log ≡ end_of_log n + 1
  unfolding Log.append
  last_index-appended =
      omega (
        arith,
        last_index_lem (appended c n).log appended-Fits,
        length-append n.log.entries (e ∷ []),
      )

  term_at-appended : Log.term_at (appended c n).log (end_of_log n + 1) ≡ some n.current_term
  unfolding Log.append
  term_at-appended =
      let first : end_of_log n + 1 - n.log.snapshot_index - 1 - length n.log.entries ≡ 0 =
        omega arith in
      term_at_lem (appended c n).log (end_of_log n + 1) appended-Fits (omega arith)
      ∙ ap (Option.map entry_term) (
          get_elem?-append_right n.log.entries (e ∷ []) _ (omega arith)
          ∙ ap (get_elem? (e ∷ [])) first)

  -- With one peer that is noted as holding more than the log, a proposal is committed at once.
  commit_index-propose :
      (peer : NodeId)
      → n.role ≡ leader
      → n.peers ≡ peer ∷ []
      → n.commit_index ≤ end_of_log n
      → end_of_log n < State.match_index n.progress peer
      → (propose c n).0.commit_index ≡ end_of_log n + 1
  unfolding majority cluster_size replicated_on
  commit_index-propose peer led two within ahead =
      let k : RaftNode G = record (appended c n) {
        outgoing = n.outgoing ++ envelopes (appended c n) (appended c n).peers;
      } in
      let h : IsCommittable k (end_of_log n + 1) = (term_at-appended, rw two (ground arith)) in
      let low : k.commit_index ≤ Log.last_index k.log = omega (arith, last_index-appended) in
      let top =
        le-advance_commit k led appended-Fits low (end_of_log n + 1) (omega (arith, within))
          (omega (arith, last_index-appended)) h in
      let (either, lo, hi) = advance_commit-IsCommittable k led appended-Fits low in
      ap (λ (x : RaftNode G). x.commit_index)
        (propose_leader c n led ∙ ap advance_commit (broadcast_append_lem (appended c n)))
      ∙ omega (arith, top, hi, last_index-appended)

module _ (R : Rand) where
  open R use {StdRng}

  step-heartbeat :
      (from : NodeId) (m : AppendEntries) (f : RaftNode StdRng)
      → f.current_term ≤ m.term
      → m.entries ≡ []
      → Log.matches f.log m.prev_log_index m.prev_log_term ≡ true
      → ((step R from (append_entries m) f).outgoing
          ≡ f.outgoing
            ++ record {
              to = m.leader_id;
              message = append_entries_reply (heartbeat_reply m.term f);
            }
              ∷ [])
        × ((step R from (append_entries m) f).log ≡ f.log)
  unfolding step dispatch Message.term become_follower handle_append_entries accept_append
      Log.splice Log.splice_loop
  step-heartbeat from m f h empty ok = ground arith

  step-answer :
      (from : NodeId) (i : ℕ) (f n : RaftNode StdRng)
      → n.role ≡ leader
      → step R from (append_entries_reply (heartbeat_reply n.current_term f)) n
        ≡ advance_commit (record n { progress = noted from (Log.last_index f.log) n.progress })
  unfolding step dispatch Message.term handle_append_entries_reply
  step-answer from i f n led = ground arith

  -- The heartbeat that a leader sends to a follower that has accepted nothing behind its log.
  heartbeat_lem :
      (peer : NodeId) (m : AppendEntries) (n : RaftNode StdRng)
      → append_message peer n ≡ append_entries m
      → (m.term ≡ n.current_term) × (m.leader_id ≡ n.id)
  unfolding append_message
  heartbeat_lem peer m n e = ground arith

  -- A leader of a cluster of two sends its follower a heartbeat, a message without entries, of the
  -- follower's term or a newer one, and the follower's log matches at the previous index but goes
  -- on past the end of the leader's: then the follower keeps its log and answers, and a leader
  -- that gets the answer commits the next command proposed to it, at the index behind its log,
  -- within the proposal itself, before the follower can have taken or answered a message that
  -- carries it. The leader's commit index is within its log, and there is room in the log for two
  -- more indices.
  pub propose_unreplicated :
      (n f : RaftNode StdRng) (m : AppendEntries) (c : Bytes)
      → n.role ≡ leader
      → n.peers ≡ f.id ∷ []
      → (send_append f.id n).outgoing
        ≡ n.outgoing ++ record { to = f.id; message = append_entries m } ∷ []
      → m.entries ≡ []
      → f.current_term ≤ n.current_term
      → Log.matches f.log m.prev_log_index m.prev_log_term ≡ true
      → end_of_log n + 2 < u64_mod
      → n.commit_index ≤ end_of_log n
      → end_of_log n < Log.last_index f.log
      → (r : AppendEntriesReply) × ((step R n.id (append_entries m) f).outgoing
          ≡ f.outgoing ++ record { to = n.id; message = append_entries_reply r } ∷ [])
        × ((step R n.id (append_entries m) f).log ≡ f.log)
        × ((propose c (step R f.id (append_entries_reply r) n)).0.commit_index ≡ end_of_log n + 1)
  propose_unreplicated n f m c led two sent empty newer ok room within ahead =
      let (t, l) = heartbeat_lem f.id m n (send_append-message f.id n (append_entries m) sent) in
      let (out, log) = step-heartbeat n.id m f (omega (arith, t)) empty ok in
      let i = Log.last_index f.log in
      let k : RaftNode StdRng = record n { progress = noted f.id i n.progress } in
      let fits : Fits k.log = omega (arith, room) in
      let low : k.commit_index ≤ Log.last_index k.log =
        omega (arith, last_index_lem n.log fits, within) in
      let (either, lo, hi) = advance_commit-IsCommittable k led fits low in
      let b : advanced k ≤ end_of_log n = omega (
        arith,
        hi,
        last_index_lem n.log fits,
        ap (λ (x : RaftNode StdRng). x.commit_index) (advance_commit_lem k),
      ) in
      let k' : RaftNode StdRng = record k { commit_index = advanced k } in
      let noted_as : end_of_log n < State.match_index k'.progress f.id =
        omega (arith, match_index-noted f.id i n.progress, ahead) in
      (
        heartbeat_reply n.current_term f,
        out
            ∙ (ap
                  (λ x.
                    f.outgoing
                    ++ record { to = x; message = append_entries_reply (heartbeat_reply m.term f) }
                      ∷ [])
                  l
                ∙ ap
                    (λ x.
                      f.outgoing
                      ++ record { to = n.id; message = append_entries_reply (heartbeat_reply x f) }
                        ∷ [])
                    t),
        log,
        ap (λ x. (propose c x).0.commit_index) (step-answer f.id i f n led ∙ advance_commit_lem k)
            ∙ commit_index-propose c k' room f.id led two b noted_as,
      )
