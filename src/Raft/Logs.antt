-- ===== src/Raft/Logs.antt =====
-- What the loop that appends entries does to a log (packages/raft-consensus/src/raft-node.ts:
-- `handleAppendEntries`).
use edge_cloud_orchestrator.Prelude.{
  ℕ, zero, suc, ◌≤◌, ◌<◌, ◌≡◌, ◌≢◌, refl, ap, ◌∙◌, List, [], ◌∷◌, ◌++◌, some, arith, Bool-cases,
  inl, inr, get_elem?, length, take, length-append, length-take, ltb, ◌==◌, if◌then◌else◌,
}
use edge_cloud_orchestrator.Raft.Node.{LogEntry, entry_term}
use edge_cloud_orchestrator.Raft.Append.{append_entries}

abbrev pub terms_at : List LogEntry → ℕ → ℕ
terms_at log i = entry_term (get_elem? log i)

-- The terms of the entries given, from position `index`, agree with the log up to position c.
abbrev pub AgreesUpTo : ℕ → List LogEntry → ℕ → List LogEntry → Type 0
AgreesUpTo c log index [] = Unit
AgreesUpTo c log index (e ∷ es) =
    (index ≤ c → terms_at log index ≡ e.term) × AgreesUpTo c log (suc index) es

get_elem?-append_left {ℓ} :
    {A : Type ℓ} (xs ys : List A) (i : ℕ) → i < length xs → get_elem? (xs ++ ys) i ≡ get_elem? xs i
get_elem?-append_left [] ys i h = elim h [ ]
get_elem?-append_left (x ∷ xs) ys zero h = refl
get_elem?-append_left (x ∷ xs) ys (suc i) h = get_elem?-append_left xs ys i (omega arith)

get_elem?-take {ℓ} :
    {A : Type ℓ} (n : ℕ) (xs : List A) (i : ℕ) → i < n → get_elem? (take n xs) i ≡ get_elem? xs i
get_elem?-take zero xs i h = elim h [ ]
get_elem?-take (suc n) [] i h = refl
get_elem?-take (suc n) (x ∷ xs) zero h = refl
get_elem?-take (suc n) (x ∷ xs) (suc i) h = get_elem?-take n xs i (omega arith)

get_elem?-append_at {ℓ} :
    {A : Type ℓ} (xs : List A) (y : A) (i : ℕ) → i ≡ length xs → get_elem? (xs ++ y ∷ []) i ≡ some y
get_elem?-append_at [] y i h = rw h
get_elem?-append_at (x ∷ xs) y zero h = absurd (omega arith)
get_elem?-append_at (x ∷ xs) y (suc i) h = get_elem?-append_at xs y i (omega arith)

-- One round of the loop that appends.
abbrev put_entry : List LogEntry → ℕ → LogEntry → List LogEntry
put_entry log index e =
    if ltb index (length log)
    then (if entry_term (get_elem? log index) == e.term then log else take index log ++ e ∷ [])
    else log ++ e ∷ []

put_entry_cases {ℓ} :
    (P : List LogEntry → Type ℓ) (log : List LogEntry) (index : ℕ) (e : LogEntry)
    → (index < length log → terms_at log index ≡ e.term → P log)
    → (index < length log → terms_at log index ≢ e.term → P (take index log ++ e ∷ []))
    → (length log ≤ index → P (log ++ e ∷ []))
    → P (put_entry log index e)
put_entry_cases P log index e same differs beyond = elim (Bool-cases (ltb index (length log))) [
  | inl l ↦ rw l (elim (Bool-cases (entry_term (get_elem? log index) == e.term)) [
    | inl s ↦ rw s (same (ground arith) (ground arith))
    | inr d ↦ rw d (differs (ground arith) (λ q. ground arith))
  ])
  | inr g ↦ rw g (beyond (ground arith))
]

-- What a change of the log keeps: the entries up to position c.
pub record KeepsUpTo (c : ℕ) (log log' : List LogEntry) : Type 0 where
  pub entries : (i : ℕ) → i ≤ c → get_elem? log' i ≡ get_elem? log i
  pub longer : c < length log'

put_entry-KeepsUpTo :
    (c : ℕ) (log : List LogEntry) (index : ℕ) (e : LogEntry)
    → c < length log
    → (index ≤ c → terms_at log index ≡ e.term)
    → KeepsUpTo c log (put_entry log index e)
put_entry-KeepsUpTo c log index e h agree =
    put_entry_cases (KeepsUpTo c log) log index e
      (λ l s. record { entries = λ i k. refl; longer = h })
      (λ l d.
        let b : c < index = ground arith in
        record {
          entries = λ i k.
              get_elem?-append_left (take index log) (e ∷ []) i
                (omega (arith, length-take index log))
              ∙ get_elem?-take index log i (omega arith);
          longer = omega (arith, length-append (take index log) (e ∷ []), length-take index log);
        })
      (λ g. record {
        entries = λ i k. get_elem?-append_left log (e ∷ []) i (omega arith);
        longer = omega (arith, length-append log (e ∷ []));
      })

AgreesUpTo-KeepsUpTo :
    (c : ℕ) (log log' : List LogEntry) (index : ℕ) (es : List LogEntry)
    → KeepsUpTo c log log'
    → AgreesUpTo c log index es
    → AgreesUpTo c log' index es
AgreesUpTo-KeepsUpTo c log log' index [] k a = tt
AgreesUpTo-KeepsUpTo c log log' index (e ∷ es) k a = (
  λ h. ap entry_term (k.entries index h) ∙ a.0 h,
  AgreesUpTo-KeepsUpTo c log log' (suc index) es k a.1,
)

pub append_entries-KeepsUpTo :
    (c : ℕ) (log : List LogEntry) (index : ℕ) (es : List LogEntry)
    → c < length log
    → AgreesUpTo c log index es
    → KeepsUpTo c log (append_entries log index es)
unfolding append_entries
append_entries-KeepsUpTo c log index [] h a = record { entries = λ i k. refl; longer = h }
append_entries-KeepsUpTo c log index (e ∷ es) h a =
    let p = put_entry-KeepsUpTo c log index e h a.0 in
    let q =
      append_entries-KeepsUpTo c (put_entry log index e) (suc index) es p.longer
        (AgreesUpTo-KeepsUpTo c log (put_entry log index e) (suc index) es p a.1) in
    record { entries = λ i k. q.entries i k ∙ p.entries i k; longer = q.longer }
