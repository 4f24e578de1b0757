-- ===== src/Raft/Leader.antt =====
-- packages/raft-consensus/src/raft-node.ts, the leader's side of replication: `replicateCommand`,
-- `sendHeartbeats`, `updateCommitIndex`.
use edge_cloud_orchestrator.Prelude.{
  ℕ, zero, suc, ◌+◌, ◌-◌, ◌/◌, max, Bool, true, false, List, [], ◌∷◌, ◌++◌, ◌&&◌, map, Option, none,
  some, leb, ltb, ◌==◌, length, if◌then◌else◌, get_elem?, take, drop,
}
use edge_cloud_orchestrator.Prelude.Dict.{get, put}
use edge_cloud_orchestrator.Raft.Node.{
  RaftNode, LogEntry, adopt_term, is_leader, last_log_index, entry_term,
}
use edge_cloud_orchestrator.Raft.Append.{
  AppendEntriesRequest, AppendEntriesResponse, apply_committed_entries,
}

-- `this.nextIndex.get(peerId) || 1`.
abbrev pub next_or_one : Option ℕ → ℕ
next_or_one none = 1
next_or_one (some zero) = 1
next_or_one (some (suc i)) = suc i

-- What `sendHeartbeats` sends to a peer.
unfoldable pub heartbeat_request : RaftNode → ℕ → AppendEntriesRequest
unfolding get
heartbeat_request n peer =
    let next = next_or_one (get peer n.next_index) in
    record {
      term = n.current_term;
      leader_id = n.id;
      prev_log_index = next - 1;
      prev_log_term = entry_term (get_elem? n.log (next - 1));
      entries = take n.max_log_entries_per_request (drop next n.log);
      leader_commit = n.commit_index;
    }

-- `sendHeartbeats` up to its wait: the requests that go out, with their peers.
unfoldable pub send_heartbeats : RaftNode → RaftNode × List (ℕ × AppendEntriesRequest)
send_heartbeats n =
    let n' = record n { heartbeat_count = n.heartbeat_count + 1 } in
    if is_leader n then (n', map (λ p. (p, heartbeat_request n' p)) n.peers) else (n, [])

-- `replicateCommand` up to its first wait: the requests that go out and the index of the new entry,
-- or `none` where it throws.
unfoldable pub replicate_command :
    RaftNode → Option ℕ → ℕ → RaftNode × Option (List (ℕ × AppendEntriesRequest) × ℕ)
replicate_command n command now =
    let (n', requests) = send_heartbeats (record n {
      log =
          n.log
          ++ record {
            term = n.current_term;
            index = length n.log;
            command = command;
            timestamp = now;
          }
            ∷ [];
    }) in
    if is_leader n then (n', some (requests, length n.log)) else (n, none)

-- `waitForCommit`: what one look at the node decides, if anything.
unfoldable pub check_commit : RaftNode → ℕ → Option Bool
check_commit n index =
    if leb index n.commit_index then some true else if is_leader n then none else some false

-- `sort((a, b) => b - a)`.
unfoldable pub insert_desc : ℕ → List ℕ → List ℕ
insert_desc x [] = x ∷ []
insert_desc x (y ∷ ys) = if leb y x then x ∷ y ∷ ys else y ∷ insert_desc x ys

unfoldable pub sort_desc : List ℕ → List ℕ
sort_desc [] = []
sort_desc (x ∷ xs) = insert_desc x (sort_desc xs)

abbrev pub match_indexes : RaftNode → List ℕ
match_indexes n = last_log_index n.log ∷ map (λ e. e.1) n.match_index

unfoldable pub majority_index : RaftNode → Option ℕ
majority_index n = get_elem? (sort_desc (match_indexes n)) (length (match_indexes n) / 2)

unfoldable pub commit_entry : RaftNode → ℕ → Option LogEntry → RaftNode
commit_entry n i none = n
commit_entry n i (some e) =
    if ltb n.commit_index i && (e.term == n.current_term)
    then (apply_committed_entries (record n { commit_index = i })).0
    else n

-- `updateCommitIndex`. What it throws, `sendHeartbeats` catches.
unfoldable pub update_commit_index : RaftNode → RaftNode
update_commit_index n =
    if is_leader n
    then (elim (majority_index n) [ none ↦ n | some i ↦ commit_entry n i (get_elem? n.log i) ])
    else n

-- `if (response.conflictIndex)`.
abbrev pub back_up : RaftNode → ℕ → Option ℕ → ℕ
back_up n peer none = max 1 (next_or_one (get peer n.next_index) - 1)
back_up n peer (some zero) = max 1 (next_or_one (get peer n.next_index) - 1)
back_up n peer (some (suc c)) = suc c

-- What a response of a term that is not ahead says of the peer's log.
unfoldable pub note_response : RaftNode → ℕ → AppendEntriesResponse → RaftNode
note_response n peer r =
    if r.success
    then record n {
      match_index = put peer r.match_index n.match_index;
      next_index = put peer (r.match_index + 1) n.next_index;
    }
    else record n { next_index = put peer (back_up n peer r.conflict_index) n.next_index }

-- A peer's response to `appendEntries`.
unfoldable pub handle_append_response : RaftNode → ℕ → AppendEntriesResponse → RaftNode
handle_append_response n peer r =
    if ltb n.current_term r.term
    then adopt_term n r.term
    else update_commit_index (note_response n peer r)
