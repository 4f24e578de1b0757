-- ===== src/Raft/Terms.antt =====
-- The term and the vote of a Raft node (packages/raft-consensus/src/raft-node.ts) over any events.
use edge_cloud_orchestrator.Prelude.{
  ℕ, zero, suc, ◌≤◌, ◌<◌, ◌≡◌, ◌≢◌, ◌⊎◌, true, List, [], ◌∷◌, Option, none, some, arith,
  Option-cases, inl, inr, get_elem?, ◌-◌, min,
}
use edge_cloud_orchestrator.Raft.Node.{RaftNode, LogEntry, follower, last_log_index, adopt_term}
use edge_cloud_orchestrator.Raft.Votes.{
  VoteRequest, handle_vote_request, election_timeout, handle_vote_response, finish_election,
}
use edge_cloud_orchestrator.Raft.Append.{
  AppendEntriesRequest, append_entries, apply_command, handle_append_entries, follow_leader,
  apply_loop, apply_committed_entries, advance_commit, accept_entries, check_and_accept,
}
use edge_cloud_orchestrator.Raft.Leader.{
  send_heartbeats, replicate_command, handle_append_response, note_response, update_commit_index,
  commit_entry, majority_index,
}
use edge_cloud_orchestrator.Raft.Run.{
  Event, is_asked_for_vote, is_sent_entries, times_out, heartbeat_fires, gets_vote, ends_election,
  gets_append_response, gets_command, step, run,
}

-- Two nodes of the same term, vote and role, that send their peers the same.
pub record AreAlike (n m : RaftNode) : Type 0 where
  pub same_term : m.current_term ≡ n.current_term
  pub same_vote : m.voted_for ≡ n.voted_for
  pub same_state : m.state ≡ n.state
  pub same_next : m.next_index ≡ n.next_index

AreAlike-trans : {n m k : RaftNode} → AreAlike n m → AreAlike m k → AreAlike n k
AreAlike-trans p q = ground arith

apply_loop-AreAlike : (k : ℕ) (n : RaftNode) → AreAlike n (apply_loop k n).0
unfolding apply_loop
apply_loop-AreAlike zero n = ground arith
apply_loop-AreAlike (suc k) n = elim (Option-cases (get_elem? n.log (suc n.last_applied))) [
  | inl e ↦ rw (e, apply_loop) (ground arith)
  | inr (x, e) ↦
      rw (e, apply_loop)
        (let n' : RaftNode = record n {
          last_applied = suc n.last_applied;
          applied = apply_command x.command n.applied;
        } in
          AreAlike-trans {n = n} {m = n'} (ground arith) (apply_loop-AreAlike k n'))
]

apply_committed-AreAlike : (n : RaftNode) → AreAlike n (apply_committed_entries n).0
unfolding apply_committed_entries
apply_committed-AreAlike n = apply_loop-AreAlike (n.commit_index - n.last_applied) n

advance_commit-AreAlike : (n : RaftNode) (c : ℕ) → AreAlike n (advance_commit n c).0
unfolding advance_commit
advance_commit-AreAlike n c =
    ground
      (arith, apply_committed-AreAlike (record n { commit_index = min c (last_log_index n.log) }))

pub check_and_accept-AreAlike :
    (n : RaftNode) (r : AppendEntriesRequest) → AreAlike n (check_and_accept n r).0
unfolding check_and_accept accept_entries
check_and_accept-AreAlike n r = ground (
  arith,
  advance_commit-AreAlike (record n { log = append_entries n.log (suc r.prev_log_index) r.entries })
      r.leader_commit,
)

commit_entry-AreAlike :
    (n : RaftNode) (i : ℕ) (e : Option LogEntry) → AreAlike n (commit_entry n i e)
unfolding commit_entry
commit_entry-AreAlike n i none = ground arith
commit_entry-AreAlike n i (some e) =
    ground (arith, apply_committed-AreAlike (record n { commit_index = i }))

pub update_commit_index-AreAlike : (n : RaftNode) → AreAlike n (update_commit_index n)
unfolding update_commit_index
update_commit_index-AreAlike n = elim (Option-cases (majority_index n)) [
  | inl e ↦ rw (e, update_commit_index) (ground arith)
  | inr (i, e) ↦
      rw (e, update_commit_index) (ground (arith, commit_entry-AreAlike n i (get_elem? n.log i)))
]

-- The events in which a node keeps its vote: all but the entries of its own term at a node that is
-- not a follower.
abbrev pub Keeps : RaftNode → Event → Type 0
Keeps n (is_sent_entries r now) = (n.state ≡ follower) ⊎ (r.term ≢ n.current_term)
Keeps n _ = Unit

-- The node is past the term t, or in it with its vote given to c.
abbrev pub HasVoted : ℕ → ℕ → RaftNode → Type 0
HasVoted t c n = (t < n.current_term) ⊎ ((n.current_term ≡ t) × (n.voted_for ≡ some c))

step_term : (n : RaftNode) (e : Event) → n.current_term ≤ (step n e).current_term
unfolding step
step_term n (is_asked_for_vote r) = unfold handle_vote_request in ground arith
step_term n (is_sent_entries r now) =
    unfold handle_append_entries follow_leader in
    ground
      (arith, check_and_accept-AreAlike (follow_leader (record n { last_heartbeat = now }) r) r)
step_term n times_out = unfold election_timeout in ground arith
step_term n heartbeat_fires = unfold send_heartbeats in ground arith
step_term n (gets_vote e r) = unfold handle_vote_response in ground arith
step_term n (ends_election e) = unfold finish_election in ground arith
step_term n (gets_append_response peer r) =
    unfold handle_append_response note_response adopt_term in
    ground (arith, update_commit_index-AreAlike (note_response n peer r))
step_term n (gets_command c now) = unfold replicate_command send_heartbeats in ground arith

step-HasVoted :
    (n : RaftNode) (e : Event) (t c : ℕ) → Keeps n e → HasVoted t c n → HasVoted t c (step n e)
unfolding step
step-HasVoted n (is_asked_for_vote r) t c k v = unfold handle_vote_request in ground arith
step-HasVoted n (is_sent_entries r now) t c k v =
    unfold handle_append_entries follow_leader in
    ground
      (arith, check_and_accept-AreAlike (follow_leader (record n { last_heartbeat = now }) r) r)
step-HasVoted n times_out t c k v = unfold election_timeout in ground arith
step-HasVoted n heartbeat_fires t c k v = unfold send_heartbeats in ground arith
step-HasVoted n (gets_vote e r) t c k v = unfold handle_vote_response in ground arith
step-HasVoted n (ends_election e) t c k v = unfold finish_election in ground arith
step-HasVoted n (gets_append_response peer r) t c k v =
    unfold handle_append_response note_response adopt_term in
    ground (arith, update_commit_index-AreAlike (note_response n peer r))
step-HasVoted n (gets_command x now) t c k v =
    unfold replicate_command send_heartbeats in ground arith

-- The term of a node never falls, whatever events it meets.
run_term : (n : RaftNode) (es : List Event) → n.current_term ≤ (run n es).current_term
unfolding run
run_term n [] = omega arith
run_term n (e ∷ es) = omega (arith, step_term n e, run_term (step n e) es)

-- Each event of the sequence, at the node that it meets, lets that node keep its vote.
abbrev pub KeepsAll : RaftNode → List Event → Type 0
KeepsAll n [] = Unit
KeepsAll n (e ∷ es) = Keeps n e × KeepsAll (step n e) es

run-HasVoted :
    (n : RaftNode) (es : List Event) (t c : ℕ)
    → KeepsAll n es
    → HasVoted t c n
    → HasVoted t c (run n es)
unfolding run
run-HasVoted n [] t c k v = v
run-HasVoted n (e ∷ es) t c k v = run-HasVoted (step n e) es t c k.1 (step-HasVoted n e t c k.0 v)

granted-HasVoted :
    (n : RaftNode) (r : VoteRequest)
    → (handle_vote_request n r).1.vote_granted ≡ true
    → HasVoted r.term r.candidate_id (handle_vote_request n r).0
unfolding handle_vote_request
granted-HasVoted n r g = ground arith

granted_after :
    (n : RaftNode) (r : VoteRequest) (c : ℕ)
    → HasVoted r.term c n
    → (handle_vote_request n r).1.vote_granted ≡ true
    → r.candidate_id ≡ c
unfolding handle_vote_request
granted_after n r c v g = ground arith

-- A node that has granted its vote grants no vote of the same term to another candidate, after any
-- events among which no entries of its own term reach it while it is candidate or leader.
pub vote_once :
    (n : RaftNode) (first second : VoteRequest) (es : List Event)
    → (handle_vote_request n first).1.vote_granted ≡ true
    → KeepsAll (handle_vote_request n first).0 es
    → second.term ≡ first.term
    → (handle_vote_request (run (handle_vote_request n first).0 es) second).1.vote_granted ≡ true
    → second.candidate_id ≡ first.candidate_id
vote_once n first second es g k t g2 =
    granted_after (run (handle_vote_request n first).0 es) second first.candidate_id
      (rw t (
        run-HasVoted (handle_vote_request n first).0 es first.term first.candidate_id k
          (granted-HasVoted n first g)))
      g2
