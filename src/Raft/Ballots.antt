-- ===== src/Raft/Ballots.antt =====
-- Who becomes leader, and a vote that is lost (packages/raft-consensus/src/raft-node.ts:
-- `requestVotes`, `handleAppendEntries`, `handleVoteRequest`).
use edge_cloud_orchestrator.Prelude.{ℕ, ◌≡◌, ◌≢◌, true, false, [], none, some, arith, ◌∙◌, sym}
use edge_cloud_orchestrator.Raft.Node.{RaftNode, follower, candidate}
use edge_cloud_orchestrator.Raft.Votes.{
  VoteRequest, Election, handle_vote_request, election_timeout, finish_election, is_log_up_to_date,
}
use edge_cloud_orchestrator.Raft.Append.{AppendEntriesRequest, handle_append_entries, follow_leader}
use edge_cloud_orchestrator.Raft.Terms.{check_and_accept-AreAlike}

append_clears_vote :
    (n : RaftNode) (r : AppendEntriesRequest) (now : ℕ)
    → n.state ≢ follower
    → r.term ≡ n.current_term
    → let n' = (handle_append_entries n r now).0 in
      (n'.voted_for ≡ none) × (n'.current_term ≡ n.current_term)
unfolding handle_append_entries follow_leader
append_clears_vote n r now s t =
    ground
      (arith, check_and_accept-AreAlike (follow_leader (record n { last_heartbeat = now }) r) r)

free_grants :
    (n : RaftNode) (v : VoteRequest)
    → n.voted_for ≡ none
    → v.term ≡ n.current_term
    → is_log_up_to_date n.log v.last_log_index v.last_log_term ≡ true
    → (handle_vote_request n v).1.vote_granted ≡ true
unfolding handle_vote_request
free_grants n v f t u = ground arith

-- A candidate that has voted for itself forgets that vote when entries of its own term reach it: it
-- then grants the vote of the same term to any candidate whose log is up to date.
pub forgets_vote :
    (n : RaftNode) (r : AppendEntriesRequest) (now : ℕ) (v : VoteRequest)
    → n.state ≢ follower
    → r.term ≡ n.current_term
    → v.term ≡ n.current_term
    → is_log_up_to_date (handle_append_entries n r now).0.log v.last_log_index v.last_log_term
      ≡ true
    → ((handle_vote_request (handle_append_entries n r now).0 v).1.vote_granted ≡ true)
      × ((handle_append_entries n r now).0.current_term ≡ n.current_term)
forgets_vote n r now v s t m u =
    let (c, k) = append_clears_vote n r now s t in
    (free_grants (handle_append_entries n r now).0 v c (m ∙ sym k) u, k)

-- A node with no peers that times out is never elected: it stays candidate, with no election timer
-- and no request whose response could elect it.
alone_never_elected :
    (n : RaftNode) (e : Election)
    → n.peers ≡ []
    → (election_timeout n).1 ≡ some e
    → let n' = finish_election (election_timeout n).0 e in
      (n'.state ≡ candidate) × (n'.election_timer ≡ false)
unfolding election_timeout finish_election
alone_never_elected n e p h = ground arith
