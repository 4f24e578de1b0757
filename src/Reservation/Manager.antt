-- ===== src/Reservation/Manager.antt =====
-- src/lib/reservation/ResourceReservationManager.ts, the class `ResourceReservationManager`.
use edge_cloud_orchestrator.Prelude.{
  ℕ, ◌+◌, Bool, true, false, List, [], ◌∷◌, Option, none, some, ltb, leb, ◌==◌, ◌&&◌, not,
  if◌then◌else◌, any, map,
}
use edge_cloud_orchestrator.Prelude.Dict.{get, put, delete}
use edge_cloud_orchestrator.Reservation.Node.{
  ReservedResources, NodeCapacity, Overcommit, default_capacity, is_sufficient, overcommitted,
  reserve, release,
}

pub data TaskPriority : Type 0 where
  critical high medium low : TaskPriority

pub data ReservationStatus : Type 0 where
  pending active completed cancelled expired : ReservationStatus

pub record ResourceReservation : Type 0 where
  pub id : ℕ
  pub task_id : ℕ
  pub node_id : ℕ
  pub resources : ReservedResources
  pub priority : TaskPriority
  pub created_at : ℕ
  pub start_time : ℕ
  pub end_time : ℕ
  pub status : ReservationStatus
  pub guaranteed : Bool

pub record ReservationRequest : Type 0 where
  pub task_id : ℕ
  pub priority : TaskPriority
  pub resources : ReservedResources
  pub start_time : ℕ
  pub duration : ℕ
  pub preferred_node_ids : List ℕ
  pub anti_affinity_node_ids : List ℕ
  pub preemptible : Bool

pub record ReservationConfig : Type 0 where
  pub max_reservation_duration : ℕ
  pub min_advance_time : ℕ
  pub max_advance_time : ℕ
  pub overcommit_ratio : Overcommit
  pub preemption_enabled : Bool

abbrev pub default_config : ReservationConfig
default_config = record {
  max_reservation_duration = 3600000;
  min_advance_time = 0;
  max_advance_time = 86400000;
  overcommit_ratio = record { num = 12; den = 10 };
  preemption_enabled = true;
}

pub record Manager : Type 0 where
  pub config : ReservationConfig
  pub reservations : List (ℕ × ResourceReservation)
  pub node_capacities : List (ℕ × NodeCapacity)
  pub task_reservations : List (ℕ × ℕ)

abbrev pub new : ReservationConfig → Manager
new c = record { config = c; reservations = []; node_capacities = []; task_reservations = [] }

-- `syncNodeCapacities`, for the ids of the provider's nodes.
unfoldable pub sync_node_capacities : List ℕ → List (ℕ × NodeCapacity) → List (ℕ × NodeCapacity)
sync_node_capacities [] cs = cs
sync_node_capacities (id ∷ ids) cs =
    sync_node_capacities ids
      (elim (get id cs) [ none ↦ put id (default_capacity id) cs | some c ↦ cs ])

abbrev pub contains : ℕ → List ℕ → Bool
contains a = any (λ b. b == a)

-- A candidate: a node with the cores that are available on it.
abbrev pub Candidate : Type 0
Candidate = ℕ × ℕ

unfoldable pub candidates :
    Overcommit → ReservationRequest → List (ℕ × NodeCapacity) → List Candidate
candidates o r [] = []
candidates o r ((id, c) ∷ cs) =
    let rest = candidates o r cs in
    if not (contains id r.anti_affinity_node_ids) && is_sufficient o c r.resources
    then (id, overcommitted o c.total.cpu_cores c.reserved.cpu_cores) ∷ rest
    else rest

-- The comparison of `candidates.sort`: a may stand before b.
unfoldable pub stands_before : ReservationRequest → Candidate → Candidate → Bool
stands_before r a b =
    let a_preferred = contains a.0 r.preferred_node_ids in
    let b_preferred = contains b.0 r.preferred_node_ids in
    if a_preferred
    then (if b_preferred then leb b.1 a.1 else true)
    else (if b_preferred then false else leb b.1 a.1)

-- The sort is stable.
unfoldable pub insert_candidate : ReservationRequest → Candidate → List Candidate → List Candidate
insert_candidate r a [] = a ∷ []
insert_candidate r a (b ∷ bs) =
    if stands_before r a b then a ∷ b ∷ bs else b ∷ insert_candidate r a bs

unfoldable pub sort_candidates : ReservationRequest → List Candidate → List Candidate
sort_candidates r [] = []
sort_candidates r (a ∷ bs) = insert_candidate r a (sort_candidates r bs)

abbrev pub first_node : List Candidate → Option ℕ
first_node [] = none
first_node (a ∷ bs) = some a.0

unfoldable pub find_suitable_node : Manager → ReservationRequest → Option ℕ
find_suitable_node m r =
    first_node (sort_candidates r (candidates m.config.overcommit_ratio r m.node_capacities))

-- `reserveCapacity` and `releaseCapacity`: a node that is not known is passed over.
abbrev pub change_capacity :
    (NodeCapacity → NodeCapacity) → ℕ → List (ℕ × NodeCapacity) → List (ℕ × NodeCapacity)
change_capacity f id cs = elim (get id cs) [ none ↦ cs | some c ↦ put id (f c) cs ]

unfoldable pub reserve_capacity : ℕ → ReservedResources → Manager → Manager
reserve_capacity id r m = record m {
  node_capacities = change_capacity (λ c. reserve c r) id m.node_capacities;
}

unfoldable pub release_capacity : ℕ → ReservedResources → Manager → Manager
release_capacity id r m = record m {
  node_capacities = change_capacity (λ c. release c r) id m.node_capacities;
}

-- The checks of the times in `requestReservation`.
unfoldable pub is_timely : ReservationConfig → ReservationRequest → ℕ → Bool
is_timely c r now =
    not (ltb r.start_time (now + c.min_advance_time))
    && (not (ltb (now + c.max_advance_time) r.start_time)
        && not (ltb c.max_reservation_duration r.duration))

abbrev pub reservation_of : ℕ → ℕ → ReservationRequest → ℕ → ResourceReservation
reservation_of id node_id r now = record {
  id = id;
  task_id = r.task_id;
  node_id = node_id;
  resources = r.resources;
  priority = r.priority;
  created_at = now;
  start_time = r.start_time;
  end_time = r.start_time + r.duration;
  status = pending;
  guaranteed = not r.preemptible;
}

unfoldable pub book :
    Manager → ReservationRequest → ℕ → ℕ → ℕ → Manager × Option ResourceReservation
book m r now id node_id =
    let reservation = reservation_of id node_id r now in
    (
      reserve_capacity node_id r.resources (record m {
        reservations = put id reservation m.reservations;
        task_reservations = put r.task_id id m.task_reservations;
      }),
      some reservation,
    )

abbrev pub place :
    Manager → ReservationRequest → ℕ → ℕ → Option ℕ → Manager × Option ResourceReservation
place m r now id none = (m, none)
place m r now id (some node_id) = book m r now id node_id

-- `requestReservation` at time `now`, where the random id is `id`.
unfoldable pub request_reservation :
    Manager → ReservationRequest → ℕ → ℕ → Manager × Option ResourceReservation
request_reservation m r now id = elim (is_timely m.config r now) [
  | false ↦ (m, none)
  | true ↦ place m r now id (find_suitable_node m r)
]

abbrev pub set_status : ReservationStatus → ResourceReservation → ResourceReservation
set_status s r = record r { status = s }

-- A reservation ends: its status is changed in place, and its capacity is released.
unfoldable pub end_reservation : Manager → ResourceReservation → ℕ → ReservationStatus → Manager
end_reservation m r id s =
    release_capacity r.node_id r.resources
      (record m { reservations = put id (set_status s r) m.reservations })

unfoldable pub forget_task : ℕ → Manager → Manager
forget_task task_id m = record m { task_reservations = delete task_id m.task_reservations }

-- `cancelReservation`.
unfoldable pub cancel_reservation : Manager → ℕ → Manager × Bool
cancel_reservation m id = elim (get id m.reservations) [
  | none ↦ (m, false)
  | some r ↦ (forget_task r.task_id (end_reservation m r id cancelled), true)
]

-- `preemptReservation`.
unfoldable pub preempt_reservation : Manager → ℕ → Manager × Bool
preempt_reservation m id = elim (get id m.reservations) [
  | none ↦ (m, false)
  | some r ↦
      if m.config.preemption_enabled && not r.guaranteed
      then (end_reservation m r id cancelled, true)
      else (m, false)
]

abbrev pub is_pending : ReservationStatus → Bool
is_pending pending = true
is_pending _ = false

abbrev pub is_active : ReservationStatus → Bool
is_active active = true
is_active _ = false

-- `activateReservations`.
unfoldable pub activate : ℕ → ResourceReservation → ResourceReservation
activate now r = if is_pending r.status && leb r.start_time now then set_status active r else r

unfoldable pub activate_reservations : Manager → ℕ → Manager
activate_reservations m now = record m {
  reservations = map (λ e. (e.0, activate now e.1)) m.reservations;
}

-- `cleanup`: one reservation, and the loop over those of the map as it was when the loop began.
unfoldable pub cleanup_one : ℕ → ℕ → ResourceReservation → Manager → Manager
cleanup_one now id r m =
    let done = forget_task r.task_id (end_reservation m r id completed) in
    let late = forget_task r.task_id (end_reservation m r id expired) in
    if is_active r.status && leb r.end_time now
    then done
    else if is_pending r.status && leb r.end_time now
    then late
    else m

unfoldable pub cleanup_loop : ℕ → List (ℕ × ResourceReservation) → Manager → Manager
cleanup_loop now [] m = m
cleanup_loop now ((id, r) ∷ rs) m = cleanup_loop now rs (cleanup_one now id r m)

unfoldable pub cleanup : Manager → ℕ → Manager
cleanup m now = cleanup_loop now m.reservations m

-- What can happen to a manager: the calls of its methods, and its timer, with the time.
pub data Event : Type 0 where
  syncs : List ℕ → Event
  requests : ReservationRequest → ℕ → ℕ → Event
  cancels preempts : ℕ → Event
  ticks : ℕ → Event

unfoldable pub step : Manager → Event → Manager
step m (syncs ids) = record m { node_capacities = sync_node_capacities ids m.node_capacities }
step m (requests r now id) = (request_reservation m r now id).0
step m (cancels id) = (cancel_reservation m id).0
step m (preempts id) = (preempt_reservation m id).0
step m (ticks now) = activate_reservations (cleanup m now) now

unfoldable pub run : Manager → List Event → Manager
run m [] = m
run m (e ∷ es) = run (step m e) es
