-- ===== src/Raft/Node.antt =====
-- packages/raft-consensus/src/types.ts and the state and the conversions of `RaftNode` in
-- raft-node.ts. Node ids are numbers, since they are compared for equality only. A command is `none`
-- where JavaScript takes it for false (the dummy entry's `null`). Timers are flags: whether one is
-- pending. The state machine, which is not part of the package, is the list of the commands that it
-- was given. Events are left out, and `persistState` does nothing in the source.
use edge_cloud_orchestrator.Prelude.{
  ℕ, ◌+◌, ◌-◌, Bool, true, false, List, [], ◌∷◌, Option, none, some, length, get_elem?,
}
use edge_cloud_orchestrator.Prelude.Dict.{put}

pub data RaftState : Type 0 where
  follower candidate leader : RaftState

pub record LogEntry : Type 0 where
  pub term : ℕ
  pub index : ℕ
  pub command : Option ℕ
  pub timestamp : ℕ

pub record RaftNode : Type 0 where
  pub id : ℕ
  pub peers : List ℕ
  pub max_log_entries_per_request : ℕ
  pub current_term : ℕ
  pub voted_for : Option ℕ
  pub log : List LogEntry
  pub state : RaftState
  pub commit_index : ℕ
  pub last_applied : ℕ
  pub next_index : List (ℕ × ℕ)
  pub match_index : List (ℕ × ℕ)
  pub election_timer : Bool
  pub heartbeat_timer : Bool
  pub last_heartbeat : ℕ
  pub election_count : ℕ
  pub heartbeat_count : ℕ
  pub applied : List ℕ

abbrev pub dummy_entry : ℕ → LogEntry
dummy_entry now = record { term = 0; index = 0; command = none; timestamp = now }

-- The constructor, at time `now`.
abbrev pub new : ℕ → List ℕ → ℕ → ℕ → RaftNode
new id peers max_entries now = record {
  id = id;
  peers = peers;
  max_log_entries_per_request = max_entries;
  current_term = 0;
  voted_for = none;
  log = dummy_entry now ∷ [];
  state = follower;
  commit_index = 0;
  last_applied = 0;
  next_index = [];
  match_index = [];
  election_timer = true;
  heartbeat_timer = false;
  last_heartbeat = now;
  election_count = 0;
  heartbeat_count = 0;
  applied = [];
}

abbrev pub is_leader_state : RaftState → Bool
is_leader_state leader = true
is_leader_state _ = false

abbrev pub is_candidate_state : RaftState → Bool
is_candidate_state candidate = true
is_candidate_state _ = false

abbrev pub is_follower_state : RaftState → Bool
is_follower_state follower = true
is_follower_state _ = false

-- `isLeader`.
abbrev pub is_leader : RaftNode → Bool
is_leader n = is_leader_state n.state

abbrev pub entry_term : Option LogEntry → ℕ
entry_term none = 0
entry_term (some e) = e.term

-- `this.log[this.log.length - 1].term`: the log always holds the dummy entry.
abbrev pub last_log_index : List LogEntry → ℕ
last_log_index log = length log - 1

abbrev pub last_log_term : List LogEntry → ℕ
last_log_term log = entry_term (get_elem? log (last_log_index log))

unfoldable pub reset_election_timer : RaftNode → RaftNode
reset_election_timer n = record n { election_timer = true }

unfoldable pub clear_timers : RaftNode → RaftNode
clear_timers n = record n { election_timer = false; heartbeat_timer = false }

unfoldable pub convert_to_follower : RaftNode → RaftNode
unfolding reset_election_timer clear_timers
convert_to_follower n = reset_election_timer (clear_timers (record n { state = follower }))

-- `convertToFollower` after the term of a request or a response that is ahead.
unfoldable pub adopt_term : RaftNode → ℕ → RaftNode
unfolding convert_to_follower
adopt_term n t = convert_to_follower (record n { current_term = t; voted_for = none })

-- The election timer has fired, so it is no longer pending.
unfoldable pub convert_to_candidate : RaftNode → RaftNode
convert_to_candidate n = record n {
  state = candidate;
  current_term = n.current_term + 1;
  voted_for = some n.id;
  election_count = n.election_count + 1;
}

unfoldable pub set_all : List ℕ → ℕ → List (ℕ × ℕ) → List (ℕ × ℕ)
set_all [] v m = m
set_all (p ∷ ps) v m = set_all ps v (put p v m)

-- `sendHeartbeats` counts a round; what it sends is `heartbeat_request` of `Leader`.
unfoldable pub convert_to_leader : RaftNode → RaftNode
unfolding clear_timers
convert_to_leader n =
    let n' = clear_timers (record n { state = leader }) in
    record n' {
      next_index = set_all n.peers (last_log_index n.log + 1) n.next_index;
      match_index = set_all n.peers 0 n.match_index;
      heartbeat_count = n.heartbeat_count + 1;
      heartbeat_timer = true;
    }
