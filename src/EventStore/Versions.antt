-- ===== src/EventStore/Versions.antt =====
-- The versions of an aggregate's events in memory (src/lib/events/EventStore.ts).
use edge_cloud_orchestrator.Prelude.{
  ℕ, suc, zero, ◌+◌, ◌-◌, ◌≡◌, refl, sym, ap, ◌∙◌, List, [], ◌∷◌, ◌++◌, ltb, ◌==◌, if◌then◌else◌,
  ◌&&◌, map, length, drop, arith, inl, inr, Bool-cases, ==_iff,
}
use edge_cloud_orchestrator.EventStore.{
  Event, new_store, Append, current_version, event_of, select_events, get_events, Call, appends,
  subscribes, unsubscribes, sets_publisher, run,
}
use edge_cloud_orchestrator.EventStore.Log.{
  count_of, log_event, log_run, count_of-append, run-new-Refines,
}

abbrev pub versions : List Event → List ℕ
versions = map (λ e. e.version)

-- So many numbers, from one on.
abbrev pub up_from : ℕ → ℕ → List ℕ
up_from v zero = []
up_from v (suc n) = v ∷ up_from (suc v) n

up_from-append : (v n : ℕ) → up_from v n ++ (v + n) ∷ [] ≡ up_from v (suc n)
up_from-append v zero = ground arith
up_from-append v (suc n) = ground (arith, up_from-append (suc v) n)

drop-up_from : (j v n : ℕ) → drop j (up_from v n) ≡ up_from (v + j) (n - j)
drop-up_from zero v n = ground arith
drop-up_from (suc j) v zero = ground arith
drop-up_from (suc j) v (suc n) = ground (arith, drop-up_from j (suc v) n)

abbrev selected : ℕ → List Event → List ℕ
selected a es = versions (select_events a 0 es)

selected-append :
    (a : ℕ) (es : List Event) (r : Append) (n : ℕ)
    → selected a (es ++ event_of r (suc n) ∷ [])
      ≡ (if r.aggregate_id == a then selected a es ++ suc n ∷ [] else selected a es)
unfolding select_events
selected-append a [] r n = ground arith
selected-append a (e ∷ es) r n = ground (arith, selected-append a es r n)

selected_log :
    (a : ℕ) (log : List Event) (r : Append)
    → selected a log ≡ up_from 1 (count_of a log)
    → selected a (log_event log r) ≡ up_from 1 (count_of a (log_event log r))
selected_log a log r h =
    let n = count_of r.aggregate_id log in
    let e = event_of r (n + 1) in
    let next : n + 1 ≡ suc n = omega arith in
    let joined = ap (λ v. selected a (log ++ event_of r v ∷ [])) next ∙ selected-append a log r n in
    let one_more = up_from-append 1 (count_of a log) in
    let count = count_of-append a log e in
    elim (Bool-cases (r.aggregate_id == a)) [
      | inl t ↦
          let same : r.aggregate_id ≡ a = (==_iff r.aggregate_id a).0 t in
          let m = count_of a log in
          let suc_m : 1 + m ≡ suc m = omega arith in
          let total : count_of a (log_event log r) ≡ suc m = rw t at count ∙ omega arith in
          let here : selected a (log_event log r) ≡ selected a log ++ suc n ∷ [] = rw t at joined in
          here
          ∙ (rw (h, same) (ap (λ v. up_from 1 m ++ v ∷ []) (sym suc_m) ∙ one_more))
          ∙ ap (up_from 1) (sym total)
      | inr t ↦
          let total : count_of a (log_event log r) ≡ count_of a log = rw t at count ∙ omega arith in
          let here : selected a (log_event log r) ≡ selected a log = rw t at joined in
          here ∙ (h ∙ ap (up_from 1) (sym total))
    ]

-- What is left of a log once it is cut is what is left of the events of each aggregate.
selected-drop :
    (a m : ℕ) (es : List Event) → (j : ℕ) × (selected a (drop m es) ≡ drop j (selected a es))
unfolding select_events
selected-drop a zero es = (0, refl)
selected-drop a (suc m) [] = (0, refl)
selected-drop a (suc m) (e ∷ es) =
    let (j, h) = selected-drop a m es in
    elim (Bool-cases (e.aggregate_id == a && ltb 0 e.version)) [
      | inl t ↦ (suc j, rw t h)
      | inr t ↦ (j, rw t h)
    ]

log_run-selected :
    (a : ℕ) (log : List Event) (cs : List Call)
    → selected a log ≡ up_from 1 (count_of a log)
    → selected a (log_run log cs) ≡ up_from 1 (count_of a (log_run log cs))
unfolding log_run
log_run-selected a log [] h = h
log_run-selected a log (appends r ∷ cs) h =
    log_run-selected a (log_event log r) cs (selected_log a log r h)
log_run-selected a log (subscribes id sub ∷ cs) h = log_run-selected a log cs h
log_run-selected a log (unsubscribes id ∷ cs) h = log_run-selected a log cs h
log_run-selected a log (sets_publisher ∷ cs) h = log_run-selected a log cs h

nothing_selected : (a : ℕ) → selected a [] ≡ up_from 1 (count_of a [])
unfolding select_events count_of
nothing_selected a = refl

-- After any calls the versions of the events that a store gives for an aggregate are consecutive, and
-- the last of them, if there is any, is the current version of the aggregate: none is skipped, none
-- occurs twice, and only the oldest are missing.
pub get_events-versions :
    (k : ℕ) (cs : List Call) (a : ℕ)
    → let s = run (new_store k) cs in
      (j : ℕ) × (versions (get_events s a 0) ≡ up_from (suc j) (current_version s a - j))
unfolding get_events current_version
get_events-versions k cs a =
    let s = run (new_store k) cs in
    let log = log_run [] cs in
    let f = run-new-Refines k cs in
    let (j, cut) = selected-drop a (length log - s.max_events_in_memory) log in
    let whole = log_run-selected a [] cs (nothing_selected a) in
    let one : 1 + j ≡ suc j = omega arith in
    (
      j,
      ap (selected a) f.keeps_last
          ∙ (cut
              ∙ (ap (drop j) whole
                  ∙ (drop-up_from j 1 (count_of a log)
                      ∙ (ap (λ v. up_from v (count_of a log - j)) one
                          ∙ ap (λ c. up_from (suc j) (c - j)) (sym (f.counts a)))))),
    )
