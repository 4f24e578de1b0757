-- ===== src/Reservation/Run.antt =====
-- What holds of a manager (src/lib/reservation/ResourceReservationManager.ts) after any events.
use edge_cloud_orchestrator.Prelude.{
  ℕ, ◌≤◌, ◌≡◌, refl, Bool, true, false, List, [], ◌∷◌, some, arith, inl, inr, All, Option-cases,
  Bool-cases, ◌&&◌, not, leb, if◌then◌else◌,
}
use edge_cloud_orchestrator.Prelude.Dict.{get, put, IsMap, put-IsMap, put-All, get-All}
use edge_cloud_orchestrator.Reservation.Node.{
  NodeCapacity, Overcommit, default_capacity, is_sufficient, reserve, release,
}
use edge_cloud_orchestrator.Reservation.Manager.{
  Manager, ReservationConfig, ReservationStatus, cancelled, completed, expired, ReservationRequest,
  ResourceReservation, new, change_capacity, sync_node_capacities, Event, syncs, requests, cancels,
  preempts, ticks, step, run, request_reservation, cancel_reservation, preempt_reservation, cleanup,
  cleanup_loop, cleanup_one, activate_reservations, end_reservation, release_capacity,
  reserve_capacity, forget_task, book, is_timely, is_active, is_pending, find_suitable_node,
}
use edge_cloud_orchestrator.Reservation.Bounds.{IsWithin, reserve-IsWithin, release-IsWithin}
use edge_cloud_orchestrator.Reservation.Requests.{
  chosen_suitable, request_reservation_untimely, request_reservation_placed,
}

-- The nodes of a map, each of which is within its bounds.
abbrev AreWithin : Overcommit → List (ℕ × NodeCapacity) → Type 0
AreWithin o cs = IsMap cs × All (λ e. IsWithin o e.1) cs

default_capacity-IsWithin : (o : Overcommit) (id : ℕ) → IsWithin o (default_capacity id)
default_capacity-IsWithin o id = (omega arith, omega arith, omega arith, omega arith, omega arith)

put-AreWithin :
    (o : Overcommit) (id : ℕ) (c : NodeCapacity) (cs : List (ℕ × NodeCapacity))
    → IsWithin o c
    → AreWithin o cs
    → AreWithin o (put id c cs)
put-AreWithin o id c cs w (u, ws) = (put-IsMap id c cs u, put-All (IsWithin o) id c cs w ws)

sync-AreWithin :
    (o : Overcommit) (ids : List ℕ) (cs : List (ℕ × NodeCapacity))
    → AreWithin o cs
    → AreWithin o (sync_node_capacities ids cs)
unfolding sync_node_capacities
sync-AreWithin o [] cs w = w
sync-AreWithin o (id ∷ ids) cs w = elim (Option-cases (get id cs)) [
  | inl e ↦
      rw (e, sync_node_capacities)
        (sync-AreWithin o ids (put id (default_capacity id) cs)
          (put-AreWithin o id (default_capacity id) cs (default_capacity-IsWithin o id) w))
  | inr (c, e) ↦ rw (e, sync_node_capacities) (sync-AreWithin o ids cs w)
]

change_capacity-AreWithin :
    (o : Overcommit) (f : NodeCapacity → NodeCapacity) (id : ℕ) (cs : List (ℕ × NodeCapacity))
    → ((c : NodeCapacity) → get id cs ≡ some c → IsWithin o (f c))
    → AreWithin o cs
    → AreWithin o (change_capacity f id cs)
change_capacity-AreWithin o f id cs h w = elim (Option-cases (get id cs)) [
  | inl g ↦ rw (g, change_capacity) w
  | inr (c, g) ↦ rw (g, change_capacity) (put-AreWithin o id (f c) cs (h c g) w)
]

-- A manager keeps the bounds, of the given configuration.
abbrev Keeps : ReservationConfig → Manager → Type 0
Keeps k m = (m.config ≡ k) × AreWithin k.overcommit_ratio m.node_capacities

if-Keeps :
    (k : ReservationConfig) (b : Bool) (m m' : Manager)
    → Keeps k m
    → Keeps k m'
    → Keeps k (if b then m else m')
if-Keeps k true m m' w w' = w
if-Keeps k false m m' w w' = w'

if_pair-Keeps :
    (k : ReservationConfig) (b : Bool) (m m' : Manager)
    → Keeps k m
    → Keeps k m'
    → let answer : Manager × Bool = if b then (m, true) else (m', false) in Keeps k answer.0
if_pair-Keeps k true m m' w w' = w
if_pair-Keeps k false m m' w w' = w'

end_reservation-Keeps :
    (k : ReservationConfig) (m : Manager) (r : ResourceReservation) (id : ℕ) (s : ReservationStatus)
    → Keeps k m
    → Keeps k (end_reservation m r id s)
unfolding end_reservation release_capacity
end_reservation-Keeps k m r id s (e, w) =
    let o = k.overcommit_ratio in
    let cs = m.node_capacities in
    let released = λ (c : NodeCapacity) (g : get r.node_id cs ≡ some c).
      release-IsWithin o c r.resources (get-All (IsWithin o) r.node_id c cs w.1 g) in
    (e, change_capacity-AreWithin o (λ c. release c r.resources) r.node_id cs released w)

book-Keeps :
    (k : ReservationConfig) (m : Manager) (r : ReservationRequest) (now id n : ℕ)
    → k.overcommit_ratio.den ≤ k.overcommit_ratio.num
    → find_suitable_node m r ≡ some n
    → Keeps k m
    → Keeps k (book m r now id n).0
unfolding book reserve_capacity
book-Keeps k m r now id n d f (e, w) =
    let o = k.overcommit_ratio in
    let cs = m.node_capacities in
    let (c, g, s) = chosen_suitable m r n w.0 f in
    let reserved = λ (c' : NodeCapacity) (g' : get n cs ≡ some c').
      let same : c ≡ c' = cc (g, g') in
      let enough : is_sufficient o c' r.resources ≡ true = ground arith in
      reserve-IsWithin o c' r.resources d enough in
    (e, change_capacity-AreWithin o (λ c. reserve c r.resources) n cs reserved w)

request-Keeps :
    (k : ReservationConfig) (m : Manager) (r : ReservationRequest) (now id : ℕ)
    → k.overcommit_ratio.den ≤ k.overcommit_ratio.num
    → Keeps k m
    → Keeps k (request_reservation m r now id).0
request-Keeps k m r now id d w = elim (Bool-cases (is_timely m.config r now)) [
  | inr t ↦ rw (request_reservation_untimely m r now id t) w
  | inl t ↦
      let p = request_reservation_placed m r now id t in
      elim (Option-cases (find_suitable_node m r)) [
        | inl f ↦ rw (p, f) w
        | inr (n, f) ↦ rw (p, f) (book-Keeps k m r now id n d f w)
      ]
]

cancel-Keeps :
    (k : ReservationConfig) (m : Manager) (id : ℕ) → Keeps k m → Keeps k (cancel_reservation m id).0
unfolding cancel_reservation forget_task
cancel-Keeps k m id w = elim (Option-cases (get id m.reservations)) [
  | inl g ↦ rw (g, cancel_reservation) w
  | inr (r, g) ↦ rw (g, cancel_reservation) (end_reservation-Keeps k m r id cancelled w)
]

preempt-Keeps :
    (k : ReservationConfig) (m : Manager) (id : ℕ)
    → Keeps k m
    → Keeps k (preempt_reservation m id).0
unfolding preempt_reservation
preempt-Keeps k m id w = elim (Option-cases (get id m.reservations)) [
  | inl g ↦ rw (g, preempt_reservation) w
  | inr (r, g) ↦
      let h = end_reservation-Keeps k m r id cancelled w in
      let may = m.config.preemption_enabled && not r.guaranteed in
      rw (g, preempt_reservation) (if_pair-Keeps k may _ m h w)
]

cleanup_one-Keeps :
    (k : ReservationConfig) (now id : ℕ) (r : ResourceReservation) (m : Manager)
    → Keeps k m
    → Keeps k (cleanup_one now id r m)
unfolding cleanup_one forget_task
cleanup_one-Keeps k now id r m w =
    let h = end_reservation-Keeps k m r id completed w in
    let h' = end_reservation-Keeps k m r id expired w in
    if-Keeps k (is_active r.status && leb r.end_time now) _ _ h
      (if-Keeps k (is_pending r.status && leb r.end_time now) _ _ h' w)

cleanup_loop-Keeps :
    (k : ReservationConfig) (now : ℕ) (rs : List (ℕ × ResourceReservation)) (m : Manager)
    → Keeps k m
    → Keeps k (cleanup_loop now rs m)
unfolding cleanup_loop
cleanup_loop-Keeps k now [] m w = w
cleanup_loop-Keeps k now ((id, r) ∷ rs) m w =
    cleanup_loop-Keeps k now rs (cleanup_one now id r m) (cleanup_one-Keeps k now id r m w)

step-Keeps :
    (k : ReservationConfig) (m : Manager) (e : Event)
    → k.overcommit_ratio.den ≤ k.overcommit_ratio.num
    → Keeps k m
    → Keeps k (step m e)
unfolding step cleanup activate_reservations
step-Keeps k m (syncs ids) d (c, w) = (c, sync-AreWithin k.overcommit_ratio ids m.node_capacities w)
step-Keeps k m (requests r now id) d w = request-Keeps k m r now id d w
step-Keeps k m (cancels id) d w = cancel-Keeps k m id w
step-Keeps k m (preempts id) d w = preempt-Keeps k m id w
step-Keeps k m (ticks now) d w = cleanup_loop-Keeps k now m.reservations m w

run-Keeps :
    (k : ReservationConfig) (m : Manager) (es : List Event)
    → k.overcommit_ratio.den ≤ k.overcommit_ratio.num
    → Keeps k m
    → Keeps k (run m es)
unfolding run
run-Keeps k m [] d w = w
run-Keeps k m (e ∷ es) d w = run-Keeps k (step m e) es d (step-Keeps k m e d w)

-- Where the overcommit ratio is at least 1, after any events nothing more is reserved of any known
-- node than it has of storage, network and GPUs, and no more cores and memory than the ratio times
-- what it has.
pub run-new-IsWithin :
    (k : ReservationConfig) (es : List Event) (id : ℕ) (c : NodeCapacity)
    → k.overcommit_ratio.den ≤ k.overcommit_ratio.num
    → get id (run (new k) es).node_capacities ≡ some c
    → IsWithin k.overcommit_ratio c
run-new-IsWithin k es id c d g =
    let m = run (new k) es in
    let (e, w) = run-Keeps k (new k) es d (refl, (_, _)) in
    get-All (IsWithin k.overcommit_ratio) id c m.node_capacities w.1 g
