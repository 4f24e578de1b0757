-- ===== src/Raft/Votes.antt =====
-- packages/raft-consensus/src/raft-node.ts, elections: `handleVoteRequest`, the election timer,
-- `requestVotes`. Each call of `requestVotes` counts its votes in a variable of its own, which its
-- pending responses share: `Election`, of which several can be open at a time.
use edge_cloud_orchestrator.Prelude.{
  ℕ, ◌+◌, ◌/◌, Bool, true, false, List, ◌&&◌, Option, none, some, leb, ltb, ◌==◌, length,
  if◌then◌else◌,
}
use edge_cloud_orchestrator.Raft.Node.{
  RaftNode, is_leader_state, is_candidate_state, last_log_index, last_log_term, adopt_term,
  reset_election_timer, convert_to_candidate, convert_to_leader, LogEntry,
}

pub record VoteRequest : Type 0 where
  pub term : ℕ
  pub candidate_id : ℕ
  pub last_log_index : ℕ
  pub last_log_term : ℕ

pub record VoteResponse : Type 0 where
  pub term : ℕ
  pub vote_granted : Bool
  pub voter_id : ℕ

-- `isLogUpToDate`.
abbrev pub is_log_up_to_date : List LogEntry → ℕ → ℕ → Bool
is_log_up_to_date log index term =
    if last_log_term log == term
    then leb (last_log_index log) index
    else ltb (last_log_term log) term

-- `this.votedFor === null || this.votedFor === request.candidateId`.
abbrev pub is_free_for : Option ℕ → ℕ → Bool
is_free_for none c = true
is_free_for (some v) c = v == c

-- The part of `handleVoteRequest` after the terms were compared.
unfoldable pub cast_vote : RaftNode → VoteRequest → RaftNode × VoteResponse
unfolding reset_election_timer
cast_vote n r =
    let can_vote =
      is_free_for n.voted_for r.candidate_id
      && is_log_up_to_date n.log r.last_log_index r.last_log_term in
    (
      if can_vote then reset_election_timer (record n { voted_for = some r.candidate_id }) else n,
      record { term = n.current_term; vote_granted = can_vote; voter_id = n.id },
    )

unfoldable pub handle_vote_request : RaftNode → VoteRequest → RaftNode × VoteResponse
unfolding cast_vote adopt_term
handle_vote_request n r =
    if ltb r.term n.current_term
    then (n, record { term = n.current_term; vote_granted = false; voter_id = n.id })
    else cast_vote (if ltb n.current_term r.term then adopt_term n r.term else n) r

-- An open call of `requestVotes`: the request that it sent, and `votesReceived`.
pub record Election : Type 0 where
  pub request : VoteRequest
  pub votes_received : ℕ

-- The beginning of `requestVotes`.
unfoldable pub request_votes : RaftNode → Election
request_votes n = record {
  request = record {
    term = n.current_term;
    candidate_id = n.id;
    last_log_index = last_log_index n.log;
    last_log_term = last_log_term n.log;
  };
  votes_received = 1;
}

-- The election timer fires.
unfoldable pub election_timeout : RaftNode → RaftNode × Option Election
unfolding convert_to_candidate request_votes
election_timeout n =
    let n' = record n { election_timer = false } in
    let c = convert_to_candidate n' in
    if is_leader_state n.state then (n', none) else (c, some (request_votes c))

abbrev pub majority : RaftNode → ℕ
majority n = (length n.peers + 1) / 2 + 1

-- A peer's response to `requestVote`.
unfoldable pub handle_vote_response : RaftNode → Election → VoteResponse → RaftNode × Election
unfolding adopt_term convert_to_leader
handle_vote_response n e r =
    let e' = record e { votes_received = e.votes_received + 1 } in
    let n' = convert_to_leader n in
    if ltb n.current_term r.term
    then (adopt_term n r.term, e)
    else if r.vote_granted
    then (if leb (majority n) e'.votes_received && is_candidate_state n.state then n' else n, e')
    else (n, e)

-- After all responses of an election.
unfoldable pub finish_election : RaftNode → Election → RaftNode
unfolding reset_election_timer
finish_election n e =
    if is_candidate_state n.state && ltb e.votes_received (majority n)
    then reset_election_timer n
    else n
