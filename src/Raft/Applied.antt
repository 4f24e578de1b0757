-- ===== src/Raft/Applied.antt =====
-- What is applied to the state machine (packages/raft-consensus/src/raft-node.ts:
-- `applyCommittedEntries`).
use mathlib.Core.List.{append_assoc, append-nil}
use edge_cloud_orchestrator.Prelude.{
  ℕ, zero, suc, ◌+◌, ◌<◌, ◌≡◌, refl, ap, sym, ◌∙◌, Bool, true, List, [], ◌∷◌, ◌++◌, Option, none,
  some, arith, get_elem?, length, take, drop,
}
use edge_cloud_orchestrator.Raft.Node.{RaftNode, LogEntry}
use edge_cloud_orchestrator.Raft.Append.{apply_command, apply_loop}

-- The commands of the entries, without the empty ones.
abbrev pub commands_of : List LogEntry → List ℕ
commands_of [] = []
commands_of (e ∷ es) = apply_command e.command [] ++ commands_of es

drop-get_elem? {ℓ} :
    {A : Type ℓ} (xs : List A) (i : ℕ) (x : A)
    → get_elem? xs i ≡ some x
    → drop i xs ≡ x ∷ drop (suc i) xs
drop-get_elem? [] i x h = cc
drop-get_elem? (y ∷ xs) zero x h = cc
drop-get_elem? (y ∷ xs) (suc i) x h = drop-get_elem? xs i x h

get_elem?_below {ℓ} :
    {A : Type ℓ} (xs : List A) (i : ℕ) → i < length xs → (x : A) × (get_elem? xs i ≡ some x)
get_elem?_below [] i h = elim h [ ]
get_elem?_below (x ∷ xs) zero h = (x, refl)
get_elem?_below (x ∷ xs) (suc i) h = get_elem?_below xs i (omega arith)

apply_command_lem :
    (c : Option ℕ) (xs ys : List ℕ) → apply_command c xs ++ ys ≡ xs ++ (apply_command c [] ++ ys)
apply_command_lem none xs ys = refl
apply_command_lem (some c) xs ys = append_assoc xs (c ∷ []) ys

pub record Applies (k : ℕ) (n : RaftNode) (r : RaftNode × Bool) : Type 0 where
  pub done : r.1 ≡ true
  pub last : r.0.last_applied ≡ n.last_applied + k
  pub same_commit : r.0.commit_index ≡ n.commit_index
  pub same_log : r.0.log ≡ n.log
  pub commands : r.0.applied ≡ n.applied ++ commands_of (take k (drop (suc n.last_applied) n.log))

pub apply_loop-Applies :
    (k : ℕ) (n : RaftNode) → n.last_applied + k < length n.log → Applies k n (apply_loop k n)
unfolding apply_loop
apply_loop-Applies zero n h = record {
  done = refl;
  last = omega arith;
  same_commit = refl;
  same_log = refl;
  commands = sym (append-nil n.applied);
}
apply_loop-Applies (suc k) n h =
    let (x, e) = get_elem?_below n.log (suc n.last_applied) (omega arith) in
    let n' : RaftNode = record n {
      last_applied = suc n.last_applied;
      applied = apply_command x.command n.applied;
    } in
    let ih : Applies k n' (apply_loop k n') = apply_loop-Applies k n' (omega arith) in
    rw (e, apply_loop)
      (record {
        done = ih.done;
        last = ih.last ∙ omega arith;
        same_commit = ih.same_commit;
        same_log = ih.same_log;
        commands =
            ih.commands
            ∙ apply_command_lem x.command n.applied _
            ∙ ap (λ (es : List LogEntry). n.applied ++ commands_of (take (suc k) es))
                (sym (drop-get_elem? n.log (suc n.last_applied) x e));
      })
