-- ===== src/Raft/CatchUp.antt =====
-- How a leader backs up over a follower's refusal (packages/raft-consensus/src/raft-node.ts:
-- `handleAppendEntries` and `sendHeartbeats`, the conflict index).
use edge_cloud_orchestrator.Prelude.{
  ℕ, zero, suc, ◌-◌, ◌≤◌, ◌<◌, ◌≡◌, ◌≢◌, refl, ap, ◌∙◌, false, List, [], ◌∷◌, Option, none, some,
  arith, Option-cases, Bool-cases, inl, inr, get_elem?, length, ltb, ◌==◌, ==_iff,
}
use edge_cloud_orchestrator.Raft.Append.{
  check_at, check_entry, refusal, handle_append_entries, follow_leader, check_and_accept, Reply,
  replies,
}
use edge_cloud_orchestrator.Raft.Terms.{update_commit_index-AreAlike}
use edge_cloud_orchestrator.Prelude.Dict.{get, get-put}
use edge_cloud_orchestrator.Raft.Node.{RaftNode, LogEntry}
use edge_cloud_orchestrator.Raft.Append.{
  AppendEntriesRequest, AppendEntriesResponse, check_consistency, find_conflict,
}
use edge_cloud_orchestrator.Raft.Leader.{
  note_response, handle_append_response, update_commit_index, heartbeat_request, next_or_one,
}

get_elem?-none {ℓ} : {A : Type ℓ} (xs : List A) (i : ℕ) → i < length xs → get_elem? xs i ≢ none
get_elem?-none [] i h = elim h [ ]
get_elem?-none (x ∷ xs) zero h = λ e. cc
get_elem?-none (x ∷ xs) (suc i) h = get_elem?-none xs i (omega arith)

get_elem?_beyond {ℓ} :
    {A : Type ℓ} (xs : List A) (i : ℕ) (x : A) → length xs ≤ i → get_elem? xs i ≢ some x
get_elem?_beyond [] i x h = λ e. cc
get_elem?_beyond (y ∷ xs) zero x h = elim h [ ]
get_elem?_beyond (y ∷ xs) (suc i) x h = get_elem?_beyond xs i x (omega arith)

find_conflict-le : (log : List LogEntry) (t p : ℕ) → find_conflict log t p ≤ p
unfolding find_conflict
find_conflict-le log t zero = omega arith
find_conflict-le log t (suc p) = elim (Option-cases (get_elem? log (suc p))) [
  | inl e ↦ rw (e, find_conflict) (omega arith)
  | inr (x, e) ↦ elim (Bool-cases (x.term == t)) [
    | inl s ↦ rw (e, s, find_conflict) (omega (arith, find_conflict-le log t p))
    | inr d ↦ rw (e, d, find_conflict) (omega arith)
  ]
]

find_conflict-lt :
    (log : List LogEntry) (p : ℕ) (x : LogEntry)
    → get_elem? log (suc p) ≡ some x
    → find_conflict log x.term (suc p) < suc p
unfolding find_conflict
find_conflict-lt log p x e =
    rw (e, (==_iff x.term x.term).1 refl, find_conflict)
      (omega (arith, find_conflict-le log x.term p))

-- What the refusal of an entry after position p says: a position before p, or, where the log is too
-- short, p itself.
record RefusesAt (f : RaftNode) (p : ℕ) (r : AppendEntriesResponse) : Type 0 where
  asked : 0 < p
  refused : r.success ≡ false
  same_term : r.term ≡ f.current_term
  place : ℕ
  says : r.conflict_index ≡ some (suc place)
  present : p < length f.log → place < p
  missing : length f.log ≤ p → place ≡ p

check_entry-RefusesAt :
    (f : RaftNode) (p t : ℕ) (r : AppendEntriesResponse) (o : Option LogEntry)
    → get_elem? f.log (suc p) ≡ o
    → check_entry f (suc p) t o ≡ some r
    → RefusesAt f (suc p) r
unfolding check_entry
check_entry-RefusesAt f p t r none g e = record {
  asked = omega arith;
  refused = ground arith;
  same_term = ground arith;
  place = suc p;
  says = ground arith;
  present = λ h. absurd (get_elem?-none f.log (suc p) h g);
  missing = λ h. refl;
}
check_entry-RefusesAt f p t r (some x) g e = record {
  asked = omega arith;
  refused = ground arith;
  same_term = ground arith;
  place = find_conflict f.log x.term (suc p);
  says = ground arith;
  present = λ h. find_conflict-lt f.log p x g;
  missing = λ h. absurd (get_elem?_beyond f.log (suc p) x h g);
}

check_consistency-RefusesAt :
    (f : RaftNode) (q : AppendEntriesRequest) (r : AppendEntriesResponse)
    → check_consistency f q ≡ some r
    → RefusesAt f q.prev_log_index r
unfolding check_consistency
check_consistency-RefusesAt f q r e = at q.prev_log_index e
  where
    at : (p : ℕ) → check_at f p q.prev_log_term ≡ some r → RefusesAt f p r
    at zero e = absurd (cc)
    at (suc p) e = check_entry-RefusesAt f p q.prev_log_term r (get_elem? f.log (suc p)) refl e

next-pos : (o : Option ℕ) → 0 < next_or_one o
next-pos none = omega arith
next-pos (some zero) = omega arith
next-pos (some (suc i)) = omega arith

note_refusal :
    (l : RaftNode) (peer c : ℕ) (r : AppendEntriesResponse)
    → r.success ≡ false
    → r.conflict_index ≡ some (suc c)
    → get peer (note_response l peer r).next_index ≡ some (suc c)
unfolding note_response
note_refusal l peer c r s e =
    rw (s, e) (get-put peer peer (suc c) l.next_index ∙ rw ((==_iff peer peer).1 refl))

-- Where the follower's log has an entry at the position that the leader asks about, its refusal makes
-- the leader's next index for it smaller, and at least 1.
pub refusal_backs_up :
    (l f : RaftNode) (peer : ℕ) (r : AppendEntriesResponse)
    → (heartbeat_request l peer).prev_log_index < length f.log
    → check_consistency f (heartbeat_request l peer) ≡ some r
    → (next : ℕ) × (get peer (note_response l peer r).next_index ≡ some next)
      × (0 < next)
      × (next < next_or_one (get peer l.next_index))
unfolding heartbeat_request
refusal_backs_up l f peer r h e =
    let a = check_consistency-RefusesAt f (heartbeat_request l peer) r e in
    (
      suc a.place,
      note_refusal l peer a.place r a.refused a.says,
      omega arith,
      omega (arith, a.present h),
    )

le→ltb-false : (a b : ℕ) → a ≤ b → ltb b a ≡ false
le→ltb-false a b h = ground arith

follow_leader-log :
    (f : RaftNode) (q : AppendEntriesRequest) (now : ℕ)
    → (follow_leader (record f { last_heartbeat = now }) q).log ≡ f.log
unfolding follow_leader
follow_leader-log f q now = ground arith

follow_leader-term :
    (f : RaftNode) (q : AppendEntriesRequest) (now : ℕ)
    → f.current_term ≤ q.term
    → (follow_leader (record f { last_heartbeat = now }) q).current_term ≡ q.term
unfolding follow_leader
follow_leader-term f q now t = ground arith

prev_log_index_lem :
    (l : RaftNode) (peer : ℕ)
    → (heartbeat_request l peer).prev_log_index ≡ next_or_one (get peer l.next_index) - 1
unfolding heartbeat_request
prev_log_index_lem l peer = refl

asks_again :
    (l : RaftNode) (peer p : ℕ) (r : AppendEntriesResponse)
    → r.success ≡ false
    → r.term ≤ l.current_term
    → r.conflict_index ≡ some (suc p)
    → (heartbeat_request (handle_append_response l peer r) peer).prev_log_index ≡ p
unfolding handle_append_response
asks_again l peer p r s t c =
    let n = note_response l peer r in
    let u = update_commit_index-AreAlike n in
    let g : get peer (update_commit_index n).next_index ≡ some (suc p) =
      ap (get peer) u.same_next ∙ note_refusal l peer p r s c in
    rw (le→ltb-false r.term l.current_term t)
      (prev_log_index_lem (update_commit_index n) peer ∙ rw g (omega arith))

check_at_missing :
    (f : RaftNode) (p t : ℕ) → 0 < p → length f.log ≤ p → check_at f p t ≡ some (refusal f p 0)
unfolding check_at
check_at_missing f zero t z h = elim z [ ]
check_at_missing f (suc p) t z h = elim (Option-cases (get_elem? f.log (suc p))) [
  | inl e ↦ rw e
  | inr (x, e) ↦ absurd (get_elem?_beyond f.log (suc p) x h e)
]

check_and_accept_refuses :
    (f : RaftNode) (q : AppendEntriesRequest) (r : AppendEntriesResponse)
    → check_consistency f q ≡ some r
    → check_and_accept f q ≡ (f, replies r)
unfolding check_and_accept
check_and_accept_refuses f q r e = rw (e, check_and_accept)

handle_missing :
    (f : RaftNode) (q : AppendEntriesRequest) (now : ℕ)
    → f.current_term ≤ q.term
    → 0 < q.prev_log_index
    → length f.log ≤ q.prev_log_index
    → let f' = follow_leader (record f { last_heartbeat = now }) q in
      handle_append_entries f q now ≡ (f', replies (refusal f' q.prev_log_index 0))
unfolding handle_append_entries check_consistency
handle_missing f q now t z h =
    let f' : RaftNode = follow_leader (record f { last_heartbeat = now }) q in
    let k : f'.log ≡ f.log = follow_leader-log f q now in
    rw (le→ltb-false f.current_term q.term t) (
      check_and_accept_refuses f' q (refusal f' q.prev_log_index 0)
        (check_at_missing f' q.prev_log_index q.prev_log_term z (rw k h)))

-- A follower whose term is not above the leader's, and whose log ends before the position that the leader
-- asks about, which is not 0, refuses, keeps its log and takes the leader's term; and after the
-- refusal the leader asks about the same position again.
pub missing_entry_stuck :
    (l f : RaftNode) (peer now : ℕ)
    → f.current_term ≤ l.current_term
    → 0 < (heartbeat_request l peer).prev_log_index
    → length f.log ≤ (heartbeat_request l peer).prev_log_index
    → let q = heartbeat_request l peer in
      let f' = (handle_append_entries f q now).0 in
      (r : AppendEntriesResponse) × ((handle_append_entries f q now).1 ≡ replies r)
      × (r.success ≡ false)
      × (f'.log ≡ f.log)
      × (f'.current_term ≡ l.current_term)
      × ((heartbeat_request (handle_append_response l peer r) peer).prev_log_index
          ≡ q.prev_log_index)
unfolding heartbeat_request
missing_entry_stuck l f peer now t z h =
    let q = heartbeat_request l peer in
    let f' : RaftNode = follow_leader (record f { last_heartbeat = now }) q in
    let e = handle_missing f q now t z h in
    (
      refusal f' q.prev_log_index 0,
      ap (λ (x : RaftNode × Reply). x.1) e,
      refl,
      ap (λ (x : RaftNode × Reply). x.0.log) e ∙ follow_leader-log f q now,
      ap (λ (x : RaftNode × Reply). x.0.current_term) e ∙ follow_leader-term f q now t,
      asks_again l peer q.prev_log_index (refusal f' q.prev_log_index 0) refl
          (omega (arith, follow_leader-term f q now t)) (ap some (omega arith)),
    )
