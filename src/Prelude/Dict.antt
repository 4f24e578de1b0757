-- ===== src/Prelude/Dict.antt =====
-- A JavaScript `Map` whose keys are compared for equality only: an association list in insertion
-- order. The keys are numbers, which name the program's identifiers.
use Prim.Native.Nat.{ℕ, suc, ◌≤◌}
use mathlib.Core.Path.{◌≡◌, refl}
use mathlib.Core.List.{List, [], ◌∷◌}
use mathlib.Core.Option.{Option, none, some}
use native.Mathlib.Omega.{arith}
use edge_cloud_orchestrator.Prelude.Tests.{◌==◌, if◌then◌else◌, Bool-cases}
use mathlib.Core.Logic.{inl, inr}
use edge_cloud_orchestrator.Prelude.Lists.{All, All-map, length}

module _ {ℓ} {V : Type ℓ} where
  unfoldable pub get : ℕ → List (ℕ × V) → Option V
  get k [] = none
  get k ((j, v) ∷ m) = if j == k then some v else get k m

  -- `set` keeps the place of a key that is there, and puts a new one last.
  unfoldable pub put : ℕ → V → List (ℕ × V) → List (ℕ × V)
  put k v [] = (k, v) ∷ []
  put k v ((j, w) ∷ m) = if j == k then (k, v) ∷ m else (j, w) ∷ put k v m

  unfoldable pub delete : ℕ → List (ℕ × V) → List (ℕ × V)
  delete k [] = []
  delete k ((j, w) ∷ m) = let rest = delete k m in if j == k then rest else (j, w) ∷ rest

  pub get-put :
      (k j : ℕ) (v : V) (m : List (ℕ × V))
      → get j (put k v m) ≡ (if k == j then some v else get j m)
  unfolding get put
  get-put k j v [] = refl
  get-put k j v ((i, w) ∷ m) = ground (arith, get-put k j v m)

  pub get-delete :
      (k j : ℕ) (m : List (ℕ × V)) → get j (delete k m) ≡ (if k == j then none else get j m)
  unfolding get delete
  get-delete k j [] = ground arith
  get-delete k j ((i, w) ∷ m) = ground (arith, get-delete k j m)

  -- No key occurs twice.
  abbrev pub IsMap : List (ℕ × V) → Type ℓ
  IsMap [] = Unit
  IsMap ((k, v) ∷ m) = (get k m ≡ none) × IsMap m

  pub put-IsMap : (k : ℕ) (v : V) (m : List (ℕ × V)) → IsMap m → IsMap (put k v m)
  unfolding get put
  put-IsMap k v [] u = ground arith
  put-IsMap k v ((j, w) ∷ m) u = ground (arith, put-IsMap k v m, get-put k j v m)

  get-cons :
      (k j : ℕ) (v w : V) (m : List (ℕ × V))
      → get k m ≡ none
      → get j m ≡ some w
      → get j ((k, v) ∷ m) ≡ some w
  unfolding get
  get-cons k j v w m h e = ground arith

  get_head : (k : ℕ) (v : V) (m : List (ℕ × V)) → get k ((k, v) ∷ m) ≡ some v
  unfolding get
  get_head k v m = ground arith

  -- The entries of a map are what it gives for their keys.
  pub IsMap-entries : (m : List (ℕ × V)) → IsMap m → All (λ e. get e.0 m ≡ some e.1) m
  IsMap-entries [] u = _
  IsMap-entries ((k, v) ∷ m) (n, u) =
      (get_head k v m, All-map (λ e. get-cons k e.0 v e.1 m n) m (IsMap-entries m u))

  pub put-All :
      (P : V → Type 0) (k : ℕ) (v : V) (m : List (ℕ × V))
      → P v
      → All (λ e. P e.1) m
      → All (λ e. P e.1) (put k v m)
  unfolding put
  put-All P k v [] p ps = (p, _)
  put-All P k v ((j, w) ∷ m) p ps = elim (Bool-cases (j == k)) [
    | inl e ↦ rw e (p, ps.1)
    | inr e ↦ rw e (ps.0, put-All P k v m p ps.1)
  ]

  pub get-All :
      (P : V → Type 0) (k : ℕ) (v : V) (m : List (ℕ × V))
      → All (λ e. P e.1) m
      → get k m ≡ some v
      → P v
  unfolding get
  get-All P k v [] ps g = cc
  get-All P k v ((j, w) ∷ m) ps g = elim (Bool-cases (j == k)) [
    | inl e ↦ let same : w ≡ v = cc (rw e at g) in rw (← same) ps.0
    | inr e ↦ get-All P k v m ps.1 (rw e at g)
  ]

  pub length-put : (k : ℕ) (v : V) (m : List (ℕ × V)) → length (put k v m) ≤ suc (length m)
  unfolding put
  length-put k v [] = omega arith
  length-put k v ((j, w) ∷ m) = elim (Bool-cases (j == k)) [
    | inl e ↦ rw e (omega arith)
    | inr e ↦ rw e (omega (arith, length-put k v m))
  ]

  pub delete_most : (k : ℕ) (m : List (ℕ × V)) → length (delete k m) ≤ length m
  unfolding delete
  delete_most k [] = omega arith
  delete_most k ((j, w) ∷ m) = elim (Bool-cases (j == k)) [
    | inl e ↦ rw e (omega (arith, delete_most k m))
    | inr e ↦ rw e (omega (arith, delete_most k m))
  ]

  pub length-delete :
      (k : ℕ) (v : V) (m : List (ℕ × V)) → get k m ≡ some v → suc (length (delete k m)) ≤ length m
  unfolding get delete
  length-delete k v [] g = cc
  length-delete k v ((j, w) ∷ m) g = elim (Bool-cases (j == k)) [
    | inl e ↦ rw e (omega (arith, delete_most k m))
    | inr e ↦ rw e (omega (arith, length-delete k v m (rw e at g)))
  ]
