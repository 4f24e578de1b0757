-- ===== src/Raft/Run.antt =====
-- The events of one Raft node (packages/raft-consensus/src/raft-node.ts), in any order: the two
-- handlers, the two timers, the responses that its requests get, and the client's command.
use edge_cloud_orchestrator.Prelude.{ℕ, List, [], ◌∷◌, Option}
use edge_cloud_orchestrator.Raft.Node.{RaftNode}
use edge_cloud_orchestrator.Raft.Votes.{
  VoteRequest, VoteResponse, Election, handle_vote_request, election_timeout, handle_vote_response,
  finish_election,
}
use edge_cloud_orchestrator.Raft.Append.{
  AppendEntriesRequest, AppendEntriesResponse, handle_append_entries,
}
use edge_cloud_orchestrator.Raft.Leader.{send_heartbeats, replicate_command, handle_append_response}

pub data Event : Type 0 where
  is_asked_for_vote : VoteRequest → Event
  is_sent_entries : AppendEntriesRequest → ℕ → Event
  times_out : Event
  heartbeat_fires : Event
  gets_vote : Election → VoteResponse → Event
  ends_election : Election → Event
  gets_append_response : ℕ → AppendEntriesResponse → Event
  gets_command : Option ℕ → ℕ → Event

unfoldable pub step : RaftNode → Event → RaftNode
step n (is_asked_for_vote r) = (handle_vote_request n r).0
step n (is_sent_entries r now) = (handle_append_entries n r now).0
step n times_out = (election_timeout n).0
step n heartbeat_fires = (send_heartbeats n).0
step n (gets_vote e r) = (handle_vote_response n e r).0
step n (ends_election e) = finish_election n e
step n (gets_append_response peer r) = handle_append_response n peer r
step n (gets_command c now) = (replicate_command n c now).0

unfoldable pub run : RaftNode → List Event → RaftNode
run n [] = n
run n (e ∷ es) = run (step n e) es
