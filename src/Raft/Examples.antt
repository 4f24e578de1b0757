-- ===== src/Raft/Examples.antt =====
-- Runs of Raft nodes (packages/raft-consensus/src/raft-node.ts): the theorems at concrete inputs.
use edge_cloud_orchestrator.Prelude.{ℕ, ◌<◌, ◌≡◌, ◌≢◌, ◌⊎◌, refl, true, false, [], ◌∷◌, some, arith}
use edge_cloud_orchestrator.Prelude.Dict.{get}
use edge_cloud_orchestrator.Raft.Node.{RaftNode, LogEntry, candidate, leader, new, dummy_entry}
use edge_cloud_orchestrator.Raft.Votes.{VoteRequest, VoteResponse, Election, handle_vote_request}
use edge_cloud_orchestrator.Raft.Append.{
  AppendEntriesRequest, AppendEntriesResponse, replies, throws, refusal, handle_append_entries,
  check_consistency, check_and_accept, accept_entries, follow_leader, append_entries,
  advance_commit, find_conflict,
}
use edge_cloud_orchestrator.Raft.Leader.{
  update_commit_index, heartbeat_request, next_or_one, note_response, handle_append_response,
}
use edge_cloud_orchestrator.Raft.Run.{is_asked_for_vote, step, run}
use edge_cloud_orchestrator.Raft.Terms.{vote_once}
use edge_cloud_orchestrator.Raft.Ballots.{forgets_vote}
use edge_cloud_orchestrator.Raft.Committed.{Extends, handle_append_entries-Extends}
use edge_cloud_orchestrator.Raft.Majority.{MayCommit, update_commit_index_safe}
use edge_cloud_orchestrator.Raft.CatchUp.{refusal_backs_up, missing_entry_stuck}

abbrev entry : ℕ → ℕ → LogEntry
entry term index = record { term = term; index = index; command = some index; timestamp = 0 }

abbrev node : RaftNode
node = new 0 (1 ∷ 2 ∷ []) 10 0

abbrev vote_for : ℕ → VoteRequest
vote_for c = record { term = 1; candidate_id = c; last_log_index = 0; last_log_term = 0 }

-- Node 1 asks twice.
vote_once_example : ◌≡◌ {A = ℕ} 1 1
unfolding handle_vote_request run step
vote_once_example =
    vote_once node (vote_for 1) (vote_for 1) (is_asked_for_vote (vote_for 2) ∷ []) refl (tt, tt)
      refl refl

abbrev standing : RaftNode
standing = record node { state = candidate; current_term = 1; voted_for = some 0 }

abbrev ballot : Election
ballot = record {
  request = record { term = 1; candidate_id = 0; last_log_index = 0; last_log_term = 0 };
  votes_received = 1;
}

abbrev yes_vote : VoteResponse
yes_vote = record { term = 1; vote_granted = true; voter_id = 1 }

abbrev hello : AppendEntriesRequest
hello = record {
  term = 1;
  leader_id = 1;
  prev_log_index = 0;
  prev_log_term = 0;
  entries = [];
  leader_commit = 0;
}

forgets_vote_example :
    ((handle_vote_request (handle_append_entries standing hello 5).0 (vote_for 2)).1.vote_granted
      ≡ true)
    × ((handle_append_entries standing hello 5).0.current_term ≡ 1)
unfolding handle_append_entries check_and_accept check_consistency accept_entries append_entries
    advance_commit follow_leader
forgets_vote_example = forgets_vote standing hello 5 (vote_for 2) (λ e. cc) refl refl refl

abbrev full : RaftNode
full = record node {
  log = dummy_entry 0 ∷ entry 1 1 ∷ entry 1 2 ∷ [];
  current_term = 1;
  commit_index = 1;
  last_applied = 1;
  applied = 1 ∷ [];
}

abbrev more : AppendEntriesRequest
more = record {
  term = 2;
  leader_id = 1;
  prev_log_index = 1;
  prev_log_term = 1;
  entries = entry 2 2 ∷ entry 2 3 ∷ [];
  leader_commit = 3;
}

handle_append_entries-Extends_example :
    Extends full (handle_append_entries full more 5).0
    × ((handle_append_entries full more 5).1 ≢ throws)
handle_append_entries-Extends_example =
    handle_append_entries-Extends full more 5
      (record { in_log = omega arith; committed = omega arith })
      (λ h. absurd (omega arith), (λ h. absurd (omega arith), tt))

abbrev leading : RaftNode
leading = record full {
  state = leader;
  match_index = (1, 2) ∷ (2, 0) ∷ [];
  next_index = (1, 3) ∷ (2, 3) ∷ [];
}

update_commit_index_safe_example :
    ((update_commit_index leading).commit_index ≡ 1)
    ⊎ MayCommit leading (update_commit_index leading).commit_index
update_commit_index_safe_example = update_commit_index_safe leading

-- A follower whose second entry is of an older term.
abbrev diverged : RaftNode
diverged = record node { log = dummy_entry 0 ∷ entry 0 1 ∷ entry 0 2 ∷ [] }

refusal_backs_up_example :
    (next : ℕ) × (get 2 (note_response leading 2 (refusal diverged 0 0)).next_index ≡ some next)
    × (0 < next)
    × (next < next_or_one (get 2 leading.next_index))
unfolding heartbeat_request get check_consistency find_conflict
refusal_backs_up_example =
    refusal_backs_up leading diverged 2 (refusal diverged 0 0) (omega arith) refl

missing_entry_stuck_example :
    let q = heartbeat_request leading 2 in
    let f = (handle_append_entries node q 5).0 in
    (r : AppendEntriesResponse) × ((handle_append_entries node q 5).1 ≡ replies r)
    × (r.success ≡ false)
    × (f.log ≡ node.log)
    × (f.current_term ≡ leading.current_term)
    × ((heartbeat_request (handle_append_response leading 2 r) 2).prev_log_index ≡ q.prev_log_index)
unfolding heartbeat_request get
missing_entry_stuck_example =
    missing_entry_stuck leading node 2 5 (omega arith) (omega arith) (omega arith)
