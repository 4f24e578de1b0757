-- ===== src/Raft/Append.antt =====
-- packages/raft-consensus/src/raft-node.ts, the follower's side of replication:
-- `handleAppendEntries` and `applyCommittedEntries`.
use edge_cloud_orchestrator.Prelude.{
  ℕ, zero, suc, ◌+◌, ◌-◌, min, Bool, true, false, List, [], ◌∷◌, ◌++◌, ◌||◌, Option, none, some,
  ltb, ◌==◌, length, if◌then◌else◌, not, get_elem?, take,
}
use edge_cloud_orchestrator.Raft.Node.{
  RaftNode, LogEntry, adopt_term, is_follower_state, last_log_index, entry_term,
  reset_election_timer,
}

pub record AppendEntriesRequest : Type 0 where
  pub term : ℕ
  pub leader_id : ℕ
  pub prev_log_index : ℕ
  pub prev_log_term : ℕ
  pub entries : List LogEntry
  pub leader_commit : ℕ

pub record AppendEntriesResponse : Type 0 where
  pub term : ℕ
  pub success : Bool
  pub follower_id : ℕ
  pub match_index : ℕ
  pub conflict_index : Option ℕ
  pub conflict_term : Option ℕ

-- The loop over `conflictIndex`.
unfoldable pub find_conflict : List LogEntry → ℕ → ℕ → ℕ
find_conflict log term zero = zero
find_conflict log term (suc i) = elim (get_elem? log (suc i)) [
  | none ↦ suc i
  | some e ↦ elim (e.term == term) [ true ↦ find_conflict log term i | false ↦ suc i ]
]

-- `if (entry.command) this.stateMachine.apply(entry.command)`.
abbrev pub apply_command : Option ℕ → List ℕ → List ℕ
apply_command none applied = applied
apply_command (some c) applied = applied ++ c ∷ []

-- The loop of `applyCommittedEntries`, over the rounds left. The flag is false where the log has no
-- such entry, and `entry.command` throws.
unfoldable pub apply_loop : ℕ → RaftNode → RaftNode × Bool
apply_loop zero n = (n, true)
apply_loop (suc k) n = elim (get_elem? n.log (suc n.last_applied)) [
  | none ↦ (record n { last_applied = suc n.last_applied }, false)
  | some e ↦
      apply_loop k (record n {
        last_applied = suc n.last_applied;
        applied = apply_command e.command n.applied;
      })
]

unfoldable pub apply_committed_entries : RaftNode → RaftNode × Bool
apply_committed_entries n = apply_loop (n.commit_index - n.last_applied) n

-- The loop that appends: `index` is that of the first entry given.
unfoldable pub append_entries : List LogEntry → ℕ → List LogEntry → List LogEntry
append_entries log index [] = log
append_entries log index (e ∷ es) =
    append_entries
      (if ltb index (length log)
        then (if entry_term (get_elem? log index) == e.term then log else take index log ++ e ∷ [])
        else log ++ e ∷ [])
      (suc index) es

-- The update of the commit index.
unfoldable pub advance_commit : RaftNode → ℕ → RaftNode × Bool
advance_commit n leader_commit =
    if ltb n.commit_index leader_commit
    then apply_committed_entries
        (record n { commit_index = min leader_commit (last_log_index n.log) })
    else (n, true)

-- What the caller sees: a response, or the rejection of the promise.
pub data Reply : Type 0 where
  replies : AppendEntriesResponse → Reply
  throws : Reply

abbrev pub reply_if : Bool → AppendEntriesResponse → Reply
reply_if true r = replies r
reply_if false r = throws

-- The answer of a follower whose log does not hold the entry before the new ones.
abbrev pub refusal : RaftNode → ℕ → ℕ → AppendEntriesResponse
refusal n conflict_index conflict_term = record {
  term = n.current_term;
  success = false;
  follower_id = n.id;
  match_index = 0;
  conflict_index = some (conflict_index + 1);
  conflict_term = some conflict_term;
}

-- The consistency check at a position above 0, given the log's entry there.
unfoldable pub check_entry : RaftNode → ℕ → ℕ → Option LogEntry → Option AppendEntriesResponse
check_entry n i prev_log_term none = some (refusal n i 0)
check_entry n i prev_log_term (some e) =
    if e.term == prev_log_term then none else some (refusal n (find_conflict n.log e.term i) e.term)

unfoldable pub check_at : RaftNode → ℕ → ℕ → Option AppendEntriesResponse
unfolding check_entry
check_at n zero prev_log_term = none
check_at n (suc p) prev_log_term = check_entry n (suc p) prev_log_term (get_elem? n.log (suc p))

unfoldable pub check_consistency : RaftNode → AppendEntriesRequest → Option AppendEntriesResponse
unfolding check_at
check_consistency n r = check_at n r.prev_log_index r.prev_log_term

-- The part after the consistency check.
unfoldable pub accept_entries : RaftNode → AppendEntriesRequest → RaftNode × Reply
accept_entries n r =
    let (n', done) =
      advance_commit (record n { log = append_entries n.log (suc r.prev_log_index) r.entries })
        r.leader_commit in
    (
      n',
      reply_if done (record {
        term = n'.current_term;
        success = true;
        follower_id = n'.id;
        match_index = r.prev_log_index + length r.entries;
        conflict_index = none;
        conflict_term = none;
      }),
    )

-- The part after the terms were compared.
unfoldable pub check_and_accept : RaftNode → AppendEntriesRequest → RaftNode × Reply
check_and_accept n r = elim (check_consistency n r) [
  | some refusal ↦ (n, replies refusal)
  | none ↦ accept_entries n r
]

-- The comparison of the terms, where the request's is not behind.
unfoldable pub follow_leader : RaftNode → AppendEntriesRequest → RaftNode
unfolding adopt_term reset_election_timer
follow_leader n r = reset_election_timer (
    if ltb n.current_term r.term || not (is_follower_state n.state) then adopt_term n r.term else n)

-- `handleAppendEntries`, at time `now`.
unfoldable pub handle_append_entries : RaftNode → AppendEntriesRequest → ℕ → RaftNode × Reply
handle_append_entries n r now =
    let n' = record n { last_heartbeat = now } in
    if ltb r.term n.current_term
    then (
      n',
      replies (record {
        term = n.current_term;
        success = false;
        follower_id = n.id;
        match_index = 0;
        conflict_index = none;
        conflict_term = none;
      }),
    )
    else check_and_accept (follow_leader n' r) r
