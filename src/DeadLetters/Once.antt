-- ===== src/DeadLetters/Once.antt =====
-- How often a dead letter is published again (packages/event-bus/src/dead-letter-queue.ts).
use edge_cloud_orchestrator.Prelude.{
  ℕ, suc, ◌+◌, ◌≤◌, ◌≡◌, refl, ◌∙◌, Bool, true, false, List, [], ◌∷◌, Option, none, some, leb, ◌==◌,
  ==_iff, if◌then◌else◌, arith, inl, inr, Bool-cases, if_cases, not, ◌&&◌,
}
use edge_cloud_orchestrator.Prelude.Dict.{get, put, get-put, IsMap, put-IsMap}
use edge_cloud_orchestrator.DeadLetters.{
  pending, permanently_failed, DeadLetterEvent, DeadLetterQueue, is_reprocessed, set_row, Replies,
  catch_retry,
}

-- How often an id has been published.
unfoldable pub times_published : ℕ → List ℕ → ℕ
times_published id [] = 0
times_published id (i ∷ is) = (if i == id then 1 else 0) + times_published id is

-- So often was a retry of the id accepted and the row not marked as reprocessed, since that update failed.
abbrev pub lost_one : ℕ → ℕ × Replies → ℕ
lost_one id r = if (r.0 == id) && (r.1.accepted && not r.1.recorded) then 1 else 0

-- A row that is there has been published once if it is reprocessed, and never if not, and one that is not
-- there any more once at most, but for so many times more.
abbrev pub IsCounted : ℕ → ℕ → Option DeadLetterEvent → Type 0
IsCounted n lost none = n ≤ 1 + lost
IsCounted n lost (some e) =
    let once = if is_reprocessed e.status then 1 else 0 in (once ≤ n) × (n ≤ once + lost)

pub IsCounted-weaken :
    (n m k l : ℕ) (o : Option DeadLetterEvent) → m ≡ n → k ≤ l → IsCounted n k o → IsCounted m l o
IsCounted-weaken n m k l none e h c = omega (arith, e, h, c)
IsCounted-weaken n m k l (some f) e h (c, d) = (omega (arith, e, c), omega (arith, e, h, d))

pub record IsOnce (lost : ℕ → ℕ) (s : DeadLetterQueue) : Type 0 where
  pub counted : (id : ℕ) → IsCounted (times_published id s.published) (lost id) (get id s.rows)
  pub no_row : (id : ℕ) → s.next_id ≤ id → get id s.rows ≡ none
  pub not_published : (id : ℕ) → s.next_id ≤ id → times_published id s.published ≡ 0
  pub is_map : IsMap s.rows

-- One list of ids published is another with this id added or not, and as many more of it are lost.
abbrev Adds : ℕ → (ℕ → ℕ) → (ℕ → ℕ) → List ℕ → List ℕ → Type 0
Adds id lost lost' ps qs =
    ((j : ℕ) → lost j ≤ lost' j)
    × ((j : ℕ) → (id == j) ≡ false → times_published j qs ≡ times_published j ps)

pub IsOnce-weaken :
    (lost lost' : ℕ → ℕ) (s : DeadLetterQueue)
    → ((j : ℕ) → lost j ≤ lost' j)
    → IsOnce lost s
    → IsOnce lost' s
IsOnce-weaken lost lost' s w h = record {
  counted = λ j.
      IsCounted-weaken _ (times_published j s.published) (lost j) (lost' j) (get j s.rows) refl
        (w j) (h.counted j);
  no_row = h.no_row;
  not_published = h.not_published;
  is_map = h.is_map;
}

-- The row of an id is replaced, and what is published may be more of this id.
pub replace-IsOnce :
    (lost lost' : ℕ → ℕ) (s : DeadLetterQueue) (id : ℕ) (e e' : DeadLetterEvent) (ps : List ℕ)
    → get id s.rows ≡ some e
    → IsCounted (times_published id ps) (lost' id) (some e')
    → Adds id lost lost' s.published ps
    → IsOnce lost s
    → IsOnce lost' (record s { rows = put id e' s.rows; published = ps })
replace-IsOnce lost lost' s id e e' ps g c (w, o) h = record {
  counted = λ j. rw (get-put id j e' s.rows) (elim (Bool-cases (id == j)) [
    | inl y ↦ let same : id ≡ j = (==_iff id j).0 y in rw y (rw same at c)
    | inr y ↦ rw y (
        IsCounted-weaken _ (times_published j ps) (lost j) (lost' j) (get j s.rows) (o j y) (w j)
          (h.counted j))
  ]);
  no_row = λ j l. rw (get-put id j e' s.rows) (elim (Bool-cases (id == j)) [
    | inl y ↦
        let same : id ≡ j = (==_iff id j).0 y in
        let gone : get id s.rows ≡ none = rw same (h.no_row j l) in absurd (cc)
    | inr y ↦ rw y (h.no_row j l)
  ]);
  not_published = λ j l. elim (Bool-cases (id == j)) [
    | inl y ↦
        let same : id ≡ j = (==_iff id j).0 y in
        let gone : get id s.rows ≡ none = rw same (h.no_row j l) in absurd (cc)
    | inr y ↦ o j y ∙ h.not_published j l
  ];
  is_map = put-IsMap id e' s.rows h.is_map;
}

-- A row that is not reprocessed has been published only where that was lost.
pub only_lost :
    (lost : ℕ → ℕ) (s : DeadLetterQueue) (id : ℕ) (e : DeadLetterEvent)
    → get id s.rows ≡ some e
    → is_reprocessed e.status ≡ false
    → IsOnce lost s
    → times_published id s.published ≤ lost id
only_lost lost s id e g u h =
    let c : IsCounted (times_published id s.published) (lost id) (some e) =
      rw g at (h.counted id) in
    ground (arith, c.1, u)

pub set_row-IsOnce :
    (lost : ℕ → ℕ) (s : DeadLetterQueue) (id : ℕ) (e e' : DeadLetterEvent)
    → get id s.rows ≡ some e
    → is_reprocessed e.status ≡ false
    → is_reprocessed e'.status ≡ false
    → IsOnce lost s
    → IsOnce lost (set_row s id e')
set_row-IsOnce lost s id e e' g u u' h =
    let few = only_lost lost s id e g u h in
    let c : IsCounted (times_published id s.published) (lost id) (some e') =
      (ground (arith, u'), ground (arith, few)) in
    replace-IsOnce lost lost s id e e' s.published g c (λ j. omega arith, λ j y. refl) h

pub catch_retry-IsOnce :
    (lost : ℕ → ℕ) (s : DeadLetterQueue) (id : ℕ) (e f : DeadLetterEvent) (caught : Bool)
    → get id s.rows ≡ some f
    → is_reprocessed f.status ≡ false
    → IsOnce lost s
    → IsOnce lost (catch_retry s id e caught)
unfolding catch_retry
catch_retry-IsOnce lost s id e f false g u h = h
catch_retry-IsOnce lost s id e f true g u h =
    let gives_up =
      set_row-IsOnce lost s id f (record f { status = permanently_failed }) g u refl h in
    let waits = set_row-IsOnce lost s id f (record f { status = pending }) g u refl h in
    rw (g, catch_retry)
      (if_cases (IsOnce lost) (leb s.max_retries (suc e.attempts))
        (set_row s id (record f { status = permanently_failed }))
        (set_row s id (record f { status = pending })) (λ y. gives_up) (λ y. waits))
