-- ===== src/EventStore/Examples.antt =====
-- Concrete runs of src/lib/events/EventStore.ts.
use edge_cloud_orchestrator.Prelude.{ℕ, ◌-◌, suc, ◌≡◌, refl, false, List, [], ◌∷◌}
use edge_cloud_orchestrator.Prelude.Dict.{get, put}
use edge_cloud_orchestrator.EventStore.{
  new_store, Append, current_version, rebuild_index, index_from, trim, store_event, append,
  get_events, select_events, Call, appends, sets_publisher, step, run,
}
use edge_cloud_orchestrator.EventStore.Log.{log_run, Refines, run-new-Refines}
use edge_cloud_orchestrator.EventStore.Versions.{versions, up_from, get_events-versions}

abbrev request : ℕ → ℕ → Append
request id aggregate_id = record {
  id = id;
  now = 100;
  type = 1;
  aggregate_id = aggregate_id;
  aggregate_type = 2;
  payload = 0;
  is_accepted = false;
}

-- Memory for three events; aggregate 7 gets three, aggregate 8 two, and the publisher refuses all.
abbrev calls : List Call
calls =
    sets_publisher
    ∷ appends (request 1 7)
    ∷ appends (request 2 8)
    ∷ appends (request 3 7)
    ∷ appends (request 4 7)
    ∷ appends (request 5 8)
    ∷ []

versions_test : versions (get_events (run (new_store 3) calls) 7 0) ≡ 2 ∷ 3 ∷ []
unfolding run step append store_event trim rebuild_index index_from get_events select_events
    current_version get put
versions_test = refl

run-new-Refines_example : Refines (run (new_store 3) calls) (log_run [] calls)
run-new-Refines_example = run-new-Refines 3 calls

get_events-versions_example :
    let s = run (new_store 3) calls in
    (j : ℕ) × (versions (get_events s 7 0) ≡ up_from (suc j) (current_version s 7 - j))
get_events-versions_example = get_events-versions 3 calls 7
