-- ===== src/Reservation/Examples.antt =====
-- Concrete runs of src/lib/reservation/ResourceReservationManager.ts.
use edge_cloud_orchestrator.Prelude.{ℕ, ◌≡◌, refl, ap, true, [], ◌∷◌, none, some, arith}
use edge_cloud_orchestrator.Prelude.Dict.{get, put}
use edge_cloud_orchestrator.Reservation.Node.{
  ReservedResources, NodeCapacity, default_capacity, is_sufficient, reserve, release,
}
use edge_cloud_orchestrator.Reservation.Manager.{
  Manager, ReservationRequest, ResourceReservation, medium, default_config, syncs, requests, ticks,
  run, step, is_timely, find_suitable_node, request_reservation, cancel_reservation, reservation_of,
  set_status, cancelled, book, stands_before, candidates, candidates, sort_candidates,
  insert_candidate, sync_node_capacities, reserve_capacity, cleanup, cleanup_loop, cleanup_one,
  activate_reservations, activate,
}
use edge_cloud_orchestrator.Reservation.Bounds.{IsWithin}
use edge_cloud_orchestrator.Reservation.Requests.{is_suitable, IsPreferred, chosen_first}
use edge_cloud_orchestrator.Reservation.Run.{run-new-IsWithin}
use edge_cloud_orchestrator.Reservation.Cancellation.{cancel-request, cancel_again}

abbrev wanted : ReservedResources
wanted = record {
  cpu_cores = 9;
  memory_mb = 1000;
  storage_gb = 60;
  network_mbps = 10;
  gpu_units = 0;
}

-- Node 7 is preferred; node 5 is not acceptable.
abbrev wish : ReservationRequest
wish = record {
  task_id = 1;
  priority = medium;
  resources = wanted;
  start_time = 100;
  duration = 1000;
  preferred_node_ids = 7 ∷ [];
  anti_affinity_node_ids = 5 ∷ [];
  preemptible = true;
}

-- Nodes 5, 6 and 7, with nothing reserved.
abbrev known : Manager
known = record {
  config = default_config;
  reservations = [];
  node_capacities =
      (5, default_capacity 5) ∷ (6, default_capacity 6) ∷ (7, default_capacity 7) ∷ [];
  task_reservations = [];
}

abbrev granted : ResourceReservation
granted = reservation_of 42 7 wish 50

-- After the reservation.
abbrev reserved : Manager
reserved = record {
  config = default_config;
  reservations = (42, granted) ∷ [];
  node_capacities =
      (5, default_capacity 5)
      ∷ (6, default_capacity 6)
      ∷ (7, reserve (default_capacity 7) wanted)
      ∷ [];
  task_reservations = (1, 42) ∷ [];
}

request_test : request_reservation known wish 50 42 ≡ (reserved, some granted)
unfolding request_reservation is_timely find_suitable_node candidates sort_candidates
    insert_candidate stands_before is_sufficient book reserve_capacity get put
request_test = refl

-- The second request finds no node with 60 GB left but node 6, and the third none.
full_test : (request_reservation reserved wish 50 43).1 ≡ some (reservation_of 43 6 wish 50)
unfolding request_reservation is_timely find_suitable_node candidates sort_candidates
    insert_candidate stands_before is_sufficient book reserve_capacity get put reserve
full_test = refl

abbrev final_capacity : NodeCapacity
final_capacity = reserve (default_capacity 7) wanted

run-new-IsWithin_example : IsWithin default_config.overcommit_ratio final_capacity
unfolding run step sync_node_capacities cleanup cleanup_loop cleanup_one activate_reservations
    activate request_reservation is_timely find_suitable_node candidates sort_candidates
    insert_candidate stands_before is_sufficient book reserve_capacity get put
run-new-IsWithin_example =
    run-new-IsWithin default_config (syncs (5 ∷ 6 ∷ 7 ∷ []) ∷ requests wish 50 42 ∷ ticks 200 ∷ [])
      7 final_capacity (omega arith) refl

chosen_first_example :
    (id : ℕ) × (c : NodeCapacity) × (find_suitable_node known wish ≡ some id)
    × (get id known.node_capacities ≡ some c)
    × (is_suitable default_config.overcommit_ratio wish id c ≡ true)
    × IsPreferred default_config.overcommit_ratio wish id c 6 (default_capacity 6)
unfolding get is_sufficient
chosen_first_example =
    chosen_first known wish 6 (default_capacity 6) (refl, (refl, (refl, _))) refl refl

cancel-request_example :
    let m' = (cancel_reservation (request_reservation known wish 50 42).0 42).0 in
    (get 7 m'.node_capacities ≡ get 7 known.node_capacities)
    × (get 42 m'.reservations ≡ some (set_status cancelled granted))
    × (get 1 m'.task_reservations ≡ none)
unfolding get
cancel-request_example =
    cancel-request known wish 50 42 7 granted (refl, (refl, (refl, _))) (ap (λ x. x.1) request_test)

cancel_again_example :
    let m' = (cancel_reservation (cancel_reservation reserved 42).0 42).0 in
    get 7 m'.node_capacities ≡ some (release (release final_capacity wanted) wanted)
unfolding get
cancel_again_example = cancel_again reserved 42 granted final_capacity refl refl
