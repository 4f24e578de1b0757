-- ===== src/Deduplication/Examples.antt =====
-- Concrete runs of src/lib/deduplication.ts.
use edge_cloud_orchestrator.Prelude.{◌≤◌, ◌≡◌, refl, List, [], ◌∷◌, none, some, arith}
use edge_cloud_orchestrator.Prelude.Dict.{get, put, delete}
use edge_cloud_orchestrator.Deduplication.{
  new, cached, oldest, make_room, deduplicate, settle, invalidate, Event, requests, settles,
  invalidates, step, run,
}
use edge_cloud_orchestrator.Deduplication.Single.{calls_of, run-new-calls_of}

-- The same request three times, another one between; the third comes after the first has ended.
abbrev busy : List Event
busy = requests 1 10 ∷ requests 2 11 ∷ requests 1 12 ∷ settles 1 20 (some 7) ∷ requests 1 30 ∷ []

run-new-calls_of_example : calls_of 1 (run (new 5 9) busy).running ≤ 1
run-new-calls_of_example = run-new-calls_of 5 9 1 busy (_, (_, (_, (_, (_, _))))) (omega arith)

busy_test :
    (calls_of 1 (run (new 5 9) busy).running ≡ 1)
    × ((deduplicate (run (new 50 9) busy) 1 31).1 ≡ cached 7)
unfolding run step deduplicate settle make_room oldest get put delete
busy_test = (refl, refl)

-- The end of a call that is no longer in flight takes the entry of the next call with it, so that a
-- third one runs beside the second.
abbrev replaced : List Event
replaced = requests 1 10 ∷ invalidates 1 ∷ requests 1 20 ∷ settles 1 30 none ∷ requests 1 40 ∷ []

replaced_test : calls_of 1 (run (new 5 9) replaced).running ≡ 2
unfolding run step deduplicate settle invalidate make_room oldest get put delete
replaced_test = refl
