-- ===== src/Raft/Committed.antt =====
-- What a follower's log keeps and what is applied (packages/raft-consensus/src/raft-node.ts:
-- `handleAppendEntries`, `applyCommittedEntries`).
use mathlib.Core.List.{append-nil}
use edge_cloud_orchestrator.Prelude.{
  ℕ, suc, ◌-◌, min, ◌≤◌, ◌<◌, ◌≡◌, ◌≢◌, refl, sym, ◌∙◌, true, List, ◌++◌, arith, Option-cases,
  Bool-cases, ltb→lt, inl, inr, get_elem?, length, take, drop, ltb,
}
use edge_cloud_orchestrator.Raft.Node.{RaftNode, LogEntry, last_log_index}
use edge_cloud_orchestrator.Raft.Append.{
  AppendEntriesRequest, append_entries, apply_loop, apply_committed_entries, advance_commit,
  accept_entries, check_consistency, check_and_accept, follow_leader, handle_append_entries, throws,
}
use edge_cloud_orchestrator.Raft.Logs.{AgreesUpTo, KeepsUpTo, append_entries-KeepsUpTo}
use edge_cloud_orchestrator.Raft.Applied.{commands_of, apply_loop-Applies}

-- What a handled request adds to what a node has committed and applied.
pub record Extends (n n' : RaftNode) : Type 0 where
  pub forward : n.commit_index ≤ n'.commit_index
  pub held : n'.commit_index < length n'.log
  pub applied_forward : n.last_applied ≤ n'.last_applied
  pub ordered : n'.last_applied ≤ n'.commit_index
  pub kept : (i : ℕ) → i ≤ n.commit_index → get_elem? n'.log i ≡ get_elem? n.log i
  pub commands :
      n'.applied
      ≡ n.applied
        ++ commands_of (take (n'.last_applied - n.last_applied) (drop (suc n.last_applied) n'.log))

-- The committed entries are in the log, and the applied ones are committed.
pub record IsOrdered (n : RaftNode) : Type 0 where
  pub in_log : n.commit_index < length n.log
  pub committed : n.last_applied ≤ n.commit_index

apply_committed-Extends :
    (n : RaftNode) (c : ℕ) (log : List LogEntry)
    → IsOrdered n
    → n.commit_index ≤ c
    → c < length log
    → KeepsUpTo n.commit_index n.log log
    → let r = apply_committed_entries (record n { log = log; commit_index = c }) in
      Extends n r.0 × (r.1 ≡ true) × (r.0.last_applied ≡ c)
unfolding apply_committed_entries
apply_committed-Extends n c log o f h k =
    let n' : RaftNode = record n { log = log; commit_index = c } in
    let a = apply_loop-Applies (c - n.last_applied) n' (omega arith) in
    let e : (apply_loop (c - n.last_applied) n').0.last_applied ≡ c = omega arith in
    (
      record {
        forward = omega arith;
        held = rw a.same_log (omega arith);
        applied_forward = omega arith;
        ordered = omega arith;
        kept = λ i h. rw a.same_log (k.entries i h);
        commands = rw (a.same_log, e) a.commands;
      },
      a.done,
      e,
    )

Extends-unchanged :
    (n n' : RaftNode)
    → IsOrdered n
    → KeepsUpTo n.commit_index n.log n'.log
    → n'.commit_index ≡ n.commit_index
    → n'.last_applied ≡ n.last_applied
    → n'.applied ≡ n.applied
    → Extends n n'
Extends-unchanged n n' o k c l a = record {
  forward = omega arith;
  held = rw c k.longer;
  applied_forward = omega arith;
  ordered = omega arith;
  kept = k.entries;
  commands =
      a
      ∙ sym (
          rw (let z : n'.last_applied - n.last_applied ≡ 0 = omega arith in z)
            (append-nil n.applied));
}

unchanged : (n : RaftNode) → IsOrdered n → Extends n n
unchanged n o =
    Extends-unchanged n n o (record { entries = λ i k. refl; longer = o.in_log }) refl refl refl

-- The request's entries agree with the committed part of the node's log.
abbrev pub Agrees : RaftNode → AppendEntriesRequest → Type 0
Agrees n r = AgreesUpTo n.commit_index n.log (suc r.prev_log_index) r.entries

advance_commit-Extends :
    (n : RaftNode) (c : ℕ) (log : List LogEntry)
    → IsOrdered n
    → KeepsUpTo n.commit_index n.log log
    → let r = advance_commit (record n { log = log }) c in Extends n r.0 × (r.1 ≡ true)
unfolding advance_commit
advance_commit-Extends n c log o k = elim (Bool-cases (ltb n.commit_index c)) [
  | inl l ↦
      let x =
        apply_committed-Extends n (min c (last_log_index log)) log o
          (omega (arith, ltb→lt n.commit_index c l, k.longer)) (omega (arith, k.longer)) k in
      rw l (x.0, x.1)
  | inr g ↦ rw g (Extends-unchanged n (record n { log = log }) o k refl refl refl, refl)
]

accept_entries-Extends :
    (n : RaftNode) (r : AppendEntriesRequest)
    → IsOrdered n
    → Agrees n r
    → Extends n (accept_entries n r).0 × ((accept_entries n r).1 ≢ throws)
unfolding accept_entries
accept_entries-Extends n r o a =
    let x =
      advance_commit-Extends n r.leader_commit
        (append_entries n.log (suc r.prev_log_index) r.entries) o
        (append_entries-KeepsUpTo n.commit_index n.log (suc r.prev_log_index) r.entries o.in_log
          a) in
    (x.0, rw x.1 (λ q. cc))

-- Two nodes that have logged, committed and applied the same.
record SameProgress (n m : RaftNode) : Type 0 where
  logs : m.log ≡ n.log
  commits : m.commit_index ≡ n.commit_index
  lasts : m.last_applied ≡ n.last_applied
  applieds : m.applied ≡ n.applied

Extends-SameProgress : (n m n' : RaftNode) → SameProgress n m → Extends m n' → Extends n n'
Extends-SameProgress n m n' s x = record {
  forward = omega arith;
  held = x.held;
  applied_forward = omega arith;
  ordered = x.ordered;
  kept = λ i h. rw (← s.logs) (x.kept i (omega arith));
  commands = rw (← s.applieds, ← s.lasts) x.commands;
}

follow_leader-SameProgress :
    (n : RaftNode) (r : AppendEntriesRequest) (now : ℕ)
    → SameProgress n (follow_leader (record n { last_heartbeat = now }) r)
unfolding follow_leader
follow_leader-SameProgress n r now = ground arith

check_and_accept-Extends :
    (n : RaftNode) (r : AppendEntriesRequest)
    → IsOrdered n
    → Agrees n r
    → Extends n (check_and_accept n r).0 × ((check_and_accept n r).1 ≢ throws)
unfolding check_and_accept
check_and_accept-Extends n r o a = elim (Option-cases (check_consistency n r)) [
  | inl e ↦ rw (e, check_and_accept) (accept_entries-Extends n r o a)
  | inr (x, e) ↦ rw (e, check_and_accept) (unchanged n o, λ q. cc)
]

-- Where the committed entries are in a node's log and the applied ones are committed, a request whose
-- entries agree in their terms with the committed part of the log keeps it so, and is answered by a
-- response: the commit index does not fall, the committed entries stay as they are, and what the
-- state machine was given is extended by the commands of exactly the entries between the old and the
-- new last applied one, in order.
pub handle_append_entries-Extends :
    (n : RaftNode) (r : AppendEntriesRequest) (now : ℕ)
    → IsOrdered n
    → Agrees n r
    → Extends n (handle_append_entries n r now).0 × ((handle_append_entries n r now).1 ≢ throws)
unfolding handle_append_entries
handle_append_entries-Extends n r now o a = elim (Bool-cases (ltb r.term n.current_term)) [
  | inl e ↦ rw e (
    Extends-unchanged n _ o (record { entries = λ i k. refl; longer = o.in_log }) refl refl refl,
    λ q. cc,
  )
  | inr e ↦
      let m : RaftNode = follow_leader (record n { last_heartbeat = now }) r in
      let s = follow_leader-SameProgress n r now in
      let x =
        check_and_accept-Extends m r
          (record { in_log = rw (s.commits, s.logs) o.in_log; committed = omega arith })
          (rw (s.commits, s.logs) a) in
      rw e (Extends-SameProgress n m (check_and_accept m r).0 s x.0, x.1)
]
