-- ===== src/Reservation/Cancellation.antt =====
-- What a cancellation gives back (src/lib/reservation/ResourceReservationManager.ts,
-- `cancelReservation`).
use edge_cloud_orchestrator.Prelude.{
  ℕ, ◌+◌, ◌-◌, ◌≡◌, refl, sym, ◌∙◌, ap, Bool, true, false, List, Option, none, some, arith, inl,
  inr, Option-cases, ◌==◌, if◌then◌else◌,
}
use edge_cloud_orchestrator.Prelude.Dict.{get, put, get-put, get-delete, IsMap}
use edge_cloud_orchestrator.Reservation.Node.{ReservedResources, NodeCapacity, reserve, release}
use edge_cloud_orchestrator.Reservation.Manager.{
  Manager, ReservationRequest, ResourceReservation, cancelled, set_status, change_capacity,
  request_reservation, cancel_reservation, end_reservation, release_capacity, reserve_capacity,
  forget_task, book, reservation_of,
}
use edge_cloud_orchestrator.Reservation.Requests.{request_granted}

abbrev changed : (NodeCapacity → NodeCapacity) → Option NodeCapacity → Option NodeCapacity
changed f none = none
changed f (some c) = some (f c)

get-change_capacity :
    (f : NodeCapacity → NodeCapacity) (id j : ℕ) (cs : List (ℕ × NodeCapacity))
    → get j (change_capacity f id cs) ≡ (if id == j then changed f (get j cs) else get j cs)
get-change_capacity f id j cs = elim (Option-cases (get id cs)) [
  | inl g ↦ rw (g, change_capacity) (grind (arith, g))
  | inr (c, g) ↦ rw (g, change_capacity) (get-put id j (f c) cs ∙ ground (arith, g))
]

add-sub : (a b : ℕ) → a + b - b ≡ a
add-sub a b = omega arith

release-reserve : (c : NodeCapacity) (r : ReservedResources) → release (reserve c r) r ≡ c
unfolding release reserve
release-reserve c r = simp add-sub

-- The manager after a reservation it has is cancelled.
cancel_reservation_known :
    (m : Manager) (id : ℕ) (r : ResourceReservation)
    → get id m.reservations ≡ some r
    → cancel_reservation m id ≡ (forget_task r.task_id (end_reservation m r id cancelled), true)
unfolding cancel_reservation
cancel_reservation_known m id r g = rw (g, cancel_reservation) refl

get-put_same {ℓ} : {V : Type ℓ} (k : ℕ) (v : V) (m : List (ℕ × V)) → get k (put k v m) ≡ some v
get-put_same k v m = ground (arith, get-put k k v m)

released_reserved :
    (r : ReservedResources) (o o' : Option NodeCapacity) (b : Bool)
    → o ≡ (if b then changed (λ c. reserve c r) o' else o')
    → (if b then changed (λ c. release c r) o else o) ≡ o'
released_reserved r o none true e = rw e refl
released_reserved r o (some c) true e = rw e (ap some (release-reserve c r))
released_reserved r o o' false e = e

reserved_and_released :
    (r : ReservedResources) (n j : ℕ) (cs : List (ℕ × NodeCapacity))
    → get j (change_capacity (λ c. release c r) n (change_capacity (λ c. reserve c r) n cs))
      ≡ get j cs
reserved_and_released r n j cs =
    let cs' = change_capacity (λ c. reserve c r) n cs in
    get-change_capacity (λ c. release c r) n j cs'
    ∙ released_reserved r (get j cs') (get j cs) (n == j)
        (get-change_capacity (λ c. reserve c r) n j cs)

book_cancelled :
    (m : Manager) (r : ReservationRequest) (now id n j : ℕ)
    → let m' = (cancel_reservation (book m r now id n).0 id).0 in
      (get j m'.node_capacities ≡ get j m.node_capacities)
      × (get id m'.reservations ≡ some (set_status cancelled (reservation_of id n r now)))
      × (get r.task_id m'.task_reservations ≡ none)
unfolding book reserve_capacity
book_cancelled m r now id n j =
    let x = reservation_of id n r now in
    let m1 = (book m r now id n).0 in
    let e = cancel_reservation_known m1 id x (get-put_same id x m.reservations) in
    rw e (
      unfold forget_task end_reservation release_capacity in
          reserved_and_released r.resources n j m.node_capacities,
      unfold forget_task end_reservation release_capacity in
          get-put_same id (set_status cancelled x) m1.reservations,
      unfold forget_task end_reservation release_capacity in
          ground (arith, get-delete r.task_id r.task_id m1.task_reservations),
    )

-- A reservation that is granted and then cancelled leaves what is reserved of every node as it was
-- before; it is kept as cancelled, and its task has no reservation.
pub cancel-request :
    (m : Manager) (r : ReservationRequest) (now id j : ℕ) (granted : ResourceReservation)
    → IsMap m.node_capacities
    → (request_reservation m r now id).1 ≡ some granted
    → let m' = (cancel_reservation (request_reservation m r now id).0 id).0 in
      (get j m'.node_capacities ≡ get j m.node_capacities)
      × (get id m'.reservations ≡ some (set_status cancelled granted))
      × (get r.task_id m'.task_reservations ≡ none)
cancel-request m r now id j granted u e =
    let (c, t, g, s, is, booked) = request_granted m r now id granted u e in
    let h = book_cancelled m r now id granted.node_id j in
    rw booked (h.0, h.1 ∙ ap (λ x. some (set_status cancelled x)) (sym is), h.2)

cancel_known :
    (m : Manager) (id : ℕ) (r : ResourceReservation) (c : NodeCapacity)
    → get id m.reservations ≡ some r
    → get r.node_id m.node_capacities ≡ some c
    → let m' = (cancel_reservation m id).0 in
      (get r.node_id m'.node_capacities ≡ some (release c r.resources))
      × (get id m'.reservations ≡ some (set_status cancelled r))
cancel_known m id r c g k = rw (cancel_reservation_known m id r g) (
  unfold forget_task end_reservation release_capacity in
      grind (
        arith,
        get-change_capacity (λ c. release c r.resources) r.node_id r.node_id m.node_capacities,
        k,
      ),
  unfold forget_task end_reservation release_capacity in
      get-put_same id (set_status cancelled r) m.reservations,
)

-- A reservation that is cancelled twice gives its resources back twice to its node.
pub cancel_again :
    (m : Manager) (id : ℕ) (r : ResourceReservation) (c : NodeCapacity)
    → get id m.reservations ≡ some r
    → get r.node_id m.node_capacities ≡ some c
    → let m' = (cancel_reservation (cancel_reservation m id).0 id).0 in
      get r.node_id m'.node_capacities ≡ some (release (release c r.resources) r.resources)
cancel_again m id r c g k =
    let (k1, g1) = cancel_known m id r c g k in
    (cancel_known (cancel_reservation m id).0 id (set_status cancelled r) (release c r.resources) g1
      k1).0
