-- ===== src/Raft/Majority.antt =====
-- When the leader commits, and a follower that it cannot catch up
-- (packages/raft-consensus/src/raft-node.ts: `updateCommitIndex`, `sendHeartbeats`).
use edge_cloud_orchestrator.Prelude.{
  ℕ, zero, suc, ◌+◌, ◌-◌, ◌*◌, ◌/◌, ◌≤◌, ◌<◌, ◌≡◌, ◌⊎◌, refl, true, ◌&&◌, List, [], ◌∷◌, Option,
  none, some, arith, Option-cases, Bool-cases, inl, inr, get_elem?, length, leb, ltb, ◌==◌,
  if◌then◌else◌,
}
use edge_cloud_orchestrator.Raft.Node.{RaftNode, LogEntry, leader, is_leader}
use edge_cloud_orchestrator.Raft.Append.{apply_committed_entries, apply_loop}
use edge_cloud_orchestrator.Raft.Leader.{
  sort_desc, insert_desc, match_indexes, majority_index, update_commit_index, commit_entry,
}

-- How many of the values are at least m.
abbrev pub count_from : ℕ → List ℕ → ℕ
count_from m [] = 0
count_from m (x ∷ xs) = let rest = count_from m xs in if leb m x then suc rest else rest

count_from-insert_desc :
    (m x : ℕ) (xs : List ℕ) → count_from m (insert_desc x xs) ≡ count_from m (x ∷ xs)
unfolding insert_desc
count_from-insert_desc m x [] = refl
count_from-insert_desc m x (y ∷ ys) = ground (arith, count_from-insert_desc m x ys)

count_from-sort_desc : (m : ℕ) (xs : List ℕ) → count_from m (sort_desc xs) ≡ count_from m xs
unfolding sort_desc
count_from-sort_desc m [] = refl
count_from-sort_desc m (x ∷ xs) =
    ground (arith, count_from-insert_desc m x (sort_desc xs), count_from-sort_desc m xs)

length-insert_desc : (x : ℕ) (xs : List ℕ) → length (insert_desc x xs) ≡ suc (length xs)
unfolding insert_desc
length-insert_desc x [] = refl
length-insert_desc x (y ∷ ys) = ground (arith, length-insert_desc x ys)

length-sort_desc : (xs : List ℕ) → length (sort_desc xs) ≡ length xs
unfolding sort_desc
length-sort_desc [] = refl
length-sort_desc (x ∷ xs) = omega (arith, length-insert_desc x (sort_desc xs), length-sort_desc xs)

-- Each value is at most b, and they do not rise.
abbrev IsDesc : ℕ → List ℕ → Type 0
IsDesc b [] = Unit
IsDesc b (x ∷ xs) = (x ≤ b) × IsDesc x xs

IsDesc-weaken : (a b : ℕ) (xs : List ℕ) → a ≤ b → IsDesc a xs → IsDesc b xs
IsDesc-weaken a b [] h d = tt
IsDesc-weaken a b (x ∷ xs) h d = (omega arith, d.1)

insert_desc-IsDesc : (b x : ℕ) (xs : List ℕ) → x ≤ b → IsDesc b xs → IsDesc b (insert_desc x xs)
unfolding insert_desc
insert_desc-IsDesc b x [] h d = (h, tt)
insert_desc-IsDesc b x (y ∷ ys) h d = ground (arith, insert_desc-IsDesc y x ys)

max_of : List ℕ → ℕ
max_of [] = 0
max_of (x ∷ xs) = x + max_of xs

sort_desc-IsDesc : (xs : List ℕ) → IsDesc (max_of xs) (sort_desc xs)
unfolding sort_desc max_of
sort_desc-IsDesc [] = tt
sort_desc-IsDesc (x ∷ xs) =
    insert_desc-IsDesc (x + max_of xs) x (sort_desc xs) (omega arith)
      (IsDesc-weaken (max_of xs) (x + max_of xs) (sort_desc xs) (omega arith) (sort_desc-IsDesc xs))

-- In a falling list the value at k is reached by those before it too.
count_from-get_elem? :
    (b m k : ℕ) (xs : List ℕ)
    → IsDesc b xs
    → get_elem? xs k ≡ some m
    → (m ≤ b) × (suc k ≤ count_from m xs)
count_from-get_elem? b m k [] d e = cc
count_from-get_elem? b m zero (x ∷ xs) d e = ground arith
count_from-get_elem? b m (suc k) (x ∷ xs) d e = ground (arith, count_from-get_elem? x m k xs)

pub majority_index-count :
    (n : RaftNode) (m : ℕ)
    → majority_index n ≡ some m
    → length (match_indexes n) < 2 * count_from m (match_indexes n)
unfolding majority_index
majority_index-count n m e =
    let xs = match_indexes n in
    let c =
      count_from-get_elem? (max_of xs) m (length xs / 2) (sort_desc xs) (sort_desc-IsDesc xs) e in
    omega (arith, count_from-sort_desc m xs)

apply_loop-commit : (k : ℕ) (n : RaftNode) → (apply_loop k n).0.commit_index ≡ n.commit_index
unfolding apply_loop
apply_loop-commit zero n = refl
apply_loop-commit (suc k) n = elim (Option-cases (get_elem? n.log (suc n.last_applied))) [
  | inl e ↦ rw (e, apply_loop)
  | inr (x, e) ↦ rw (e, apply_loop) (apply_loop-commit k _)
]

apply_committed-commit :
    (n : RaftNode) → (apply_committed_entries n).0.commit_index ≡ n.commit_index
unfolding apply_committed_entries
apply_committed-commit n = apply_loop-commit (n.commit_index - n.last_applied) n

-- The leader may commit up to index c: the log holds an entry of the leader's term there, and more
-- than half of the match indexes, the leader's own last one among them, have reached it.
pub record MayCommit (n : RaftNode) (c : ℕ) : Type 0 where
  pub leads : n.state ≡ leader
  pub ahead : n.commit_index < c
  pub quorum : length (match_indexes n) < 2 * count_from c (match_indexes n)
  pub entry : LogEntry
  pub there : get_elem? n.log c ≡ some entry
  pub own_term : entry.term ≡ n.current_term

is_leader-leader : (n : RaftNode) → is_leader n ≡ true → n.state ≡ leader
is_leader-leader n h = ground arith

commit_entry_cases :
    (n : RaftNode) (i : ℕ) (o : Option LogEntry)
    → n.state ≡ leader
    → length (match_indexes n) < 2 * count_from i (match_indexes n)
    → get_elem? n.log i ≡ o
    → ((commit_entry n i o).commit_index ≡ n.commit_index)
      ⊎ (MayCommit n i × ((commit_entry n i o).commit_index ≡ i))
unfolding commit_entry
commit_entry_cases n i none l q h = inl refl
commit_entry_cases n i (some e) l q h =
    elim (Bool-cases (ltb n.commit_index i && (e.term == n.current_term))) [
      | inl t ↦ rw t (
          inr (
            record {
              leads = l;
              ahead = ground arith;
              quorum = q;
              entry = e;
              there = h;
              own_term = ground arith;
            },
            committed i,
          ))
      | inr f ↦ rw f (inl refl)
    ]
  where
    committed :
        (c : ℕ) → (apply_committed_entries (record n { commit_index = c })).0.commit_index ≡ c
    committed c = apply_committed-commit (record n { commit_index = c })

-- `updateCommitIndex` leaves the commit index, or moves it forward to an index that the leader may
-- commit.
pub update_commit_index_safe :
    (n : RaftNode)
    → ((update_commit_index n).commit_index ≡ n.commit_index)
      ⊎ MayCommit n (update_commit_index n).commit_index
unfolding update_commit_index
update_commit_index_safe n = elim (Bool-cases (is_leader n)) [
  | inr f ↦ rw (f, update_commit_index) (inl refl)
  | inl t ↦ elim (Option-cases (majority_index n)) [
    | inl e ↦ rw (t, e, update_commit_index) (inl refl)
    | inr (i, e) ↦
        rw (t, e, update_commit_index)
          (moved i (
            commit_entry_cases n i (get_elem? n.log i) (is_leader-leader n t)
              (majority_index-count n i e) refl))
  ]
]
  where
    moved :
        (i : ℕ)
        → ((commit_entry n i (get_elem? n.log i)).commit_index ≡ n.commit_index)
          ⊎ (MayCommit n i × ((commit_entry n i (get_elem? n.log i)).commit_index ≡ i))
        → ((commit_entry n i (get_elem? n.log i)).commit_index ≡ n.commit_index)
          ⊎ MayCommit n (commit_entry n i (get_elem? n.log i)).commit_index
    moved i (inl e) = inl e
    moved i (inr (m, e)) = inr (rw e m)
