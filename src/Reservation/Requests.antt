-- ===== src/Reservation/Requests.antt =====
-- What `requestReservation` and `findSuitableNode` give
-- (src/lib/reservation/ResourceReservationManager.ts).
use edge_cloud_orchestrator.Prelude.{
  ◌≤◌, ℕ, ◌≡◌, refl, ◌∙◌, ap, inl, inr, Bool, true, false, List, [], ◌∷◌, Option, none, some, arith,
  All, All-map, Option-cases, ==_iff, Bool-cases, not, ◌&&◌, ◌==◌,
}
use edge_cloud_orchestrator.Prelude.Dict.{get, IsMap, IsMap-entries}
use edge_cloud_orchestrator.Reservation.Node.{
  NodeCapacity, Overcommit, is_sufficient, overcommitted,
}
use edge_cloud_orchestrator.Reservation.Manager.{
  Manager, ReservationRequest, ResourceReservation, contains, Candidate, candidates, stands_before,
  insert_candidate, sort_candidates, first_node, find_suitable_node, request_reservation, is_timely,
  place, book, reservation_of,
}

-- A node that may be given to the request.
abbrev pub is_suitable : Overcommit → ReservationRequest → ℕ → NodeCapacity → Bool
is_suitable o r id c = not (contains id r.anti_affinity_node_ids) && is_sufficient o c r.resources

stands_before_trans :
    (r : ReservationRequest) (a b c : Candidate)
    → stands_before r a b ≡ true
    → stands_before r b c ≡ true
    → stands_before r a c ≡ true
unfolding stands_before
stands_before_trans r a b c h k = ground arith

stands_before_total :
    (r : ReservationRequest) (a b : Candidate)
    → stands_before r a b ≡ false
    → stands_before r b a ≡ true
unfolding stands_before
stands_before_total r a b h = ground arith

stands_before_self : (r : ReservationRequest) (a : Candidate) → stands_before r a a ≡ true
unfolding stands_before
stands_before_self r a = ground arith

-- It may stand before all of them.
abbrev IsFirst : ReservationRequest → Candidate → List Candidate → Type 0
IsFirst r a = All (λ b. stands_before r a b ≡ true)

abbrev Leads : ReservationRequest → List Candidate → List Candidate → Type 0
Leads r [] xs = xs ≡ []
Leads r (a ∷ rest) xs = IsFirst r a xs

insert_candidate-Leads :
    (r : ReservationRequest) (a : Candidate) (bs xs : List Candidate)
    → Leads r bs xs
    → Leads r (insert_candidate r a bs) (a ∷ xs)
unfolding insert_candidate
insert_candidate-Leads r a [] xs l = rw l (stands_before_self r a, _)
insert_candidate-Leads r a (b ∷ bs) xs l = elim (Bool-cases (stands_before r a b)) [
  | inl e ↦ rw e (stands_before_self r a, All-map (λ c h. stands_before_trans r a b c e h) xs l)
  | inr e ↦ rw e (stands_before_total r a b e, l)
]

sort_candidates-Leads :
    (r : ReservationRequest) (xs : List Candidate) → Leads r (sort_candidates r xs) xs
unfolding sort_candidates
sort_candidates-Leads r [] = refl
sort_candidates-Leads r (a ∷ xs) =
    insert_candidate-Leads r a (sort_candidates r xs) xs (sort_candidates-Leads r xs)

insert_candidate-All :
    (P : Candidate → Type 0) (r : ReservationRequest) (a : Candidate) (bs : List Candidate)
    → P a
    → All P bs
    → All P (insert_candidate r a bs)
unfolding insert_candidate
insert_candidate-All P r a [] p ps = (p, _)
insert_candidate-All P r a (b ∷ bs) p ps = elim (Bool-cases (stands_before r a b)) [
  | inl e ↦ rw e (p, ps)
  | inr e ↦ rw e (ps.0, insert_candidate-All P r a bs p ps.1)
]

sort_candidates-All :
    (P : Candidate → Type 0) (r : ReservationRequest) (xs : List Candidate)
    → All P xs
    → All P (sort_candidates r xs)
unfolding sort_candidates
sort_candidates-All P r [] ps = _
sort_candidates-All P r (a ∷ xs) ps =
    insert_candidate-All P r a (sort_candidates r xs) ps.0 (sort_candidates-All P r xs ps.1)

-- The candidate of a suitable node of the map.
abbrev pub IsCandidate :
    Overcommit → ReservationRequest → List (ℕ × NodeCapacity) → Candidate → Type 0
IsCandidate o r cs a =
    (c : NodeCapacity) × (get a.0 cs ≡ some c)
    × (is_suitable o r a.0 c ≡ true)
    × (a.1 ≡ overcommitted o c.total.cpu_cores c.reserved.cpu_cores)

candidates-IsCandidate :
    (o : Overcommit) (r : ReservationRequest) (whole cs : List (ℕ × NodeCapacity))
    → All (λ e. get e.0 whole ≡ some e.1) cs
    → All (IsCandidate o r whole) (candidates o r cs)
unfolding candidates
candidates-IsCandidate o r whole [] h = _
candidates-IsCandidate o r whole ((id, c) ∷ cs) h = elim (Bool-cases (is_suitable o r id c)) [
  | inl e ↦ rw e ((c, h.0, e, refl), candidates-IsCandidate o r whole cs h.1)
  | inr e ↦ rw e (candidates-IsCandidate o r whole cs h.1)
]

abbrev pub candidate_of : Overcommit → ℕ → NodeCapacity → Candidate
candidate_of o id c = (id, overcommitted o c.total.cpu_cores c.reserved.cpu_cores)

All-candidates :
    (P : Candidate → Type 0) (o : Overcommit) (r : ReservationRequest) (j : ℕ) (d : NodeCapacity)
    (cs : List (ℕ × NodeCapacity))
    → All P (candidates o r cs)
    → get j cs ≡ some d
    → is_suitable o r j d ≡ true
    → P (candidate_of o j d)
unfolding candidates get
All-candidates P o r j d [] h g s = cc
All-candidates P o r j d ((k, c) ∷ cs) h g s = elim (Bool-cases (k == j)) [
  | inl e ↦
      let same_id : k ≡ j = (==_iff k j).0 e in
      let same : c ≡ d = cc (rw e at g) in
      let f : is_suitable o r k c ≡ true = rw (same_id, same) s in
      rw (← same_id, ← same) ((rw f at h).0)
  | inr e ↦ elim (Bool-cases (is_suitable o r k c)) [
    | inl f ↦ All-candidates P o r j d cs (rw f at h).1 (rw e at g) s
    | inr f ↦ All-candidates P o r j d cs (rw f at h) (rw e at g) s
  ]
]

abbrev IsChosen : Overcommit → ReservationRequest → List (ℕ × NodeCapacity) → Option ℕ → Type 0
IsChosen o r cs none = candidates o r cs ≡ []
IsChosen o r cs (some id) =
    (c : NodeCapacity) × (get id cs ≡ some c)
    × (is_suitable o r id c ≡ true)
    × IsFirst r (candidate_of o id c) (candidates o r cs)

first_node-IsChosen :
    (o : Overcommit) (r : ReservationRequest) (cs : List (ℕ × NodeCapacity)) (ys : List Candidate)
    → Leads r ys (candidates o r cs)
    → All (IsCandidate o r cs) ys
    → IsChosen o r cs (first_node ys)
first_node-IsChosen o r cs [] l h = l
first_node-IsChosen o r cs ((id, n) ∷ ys) l ((c, g, f, e), h) = (c, g, f, rw (← e) l)

find_suitable_node-IsChosen :
    (m : Manager) (r : ReservationRequest)
    → IsMap m.node_capacities
    → IsChosen m.config.overcommit_ratio r m.node_capacities (find_suitable_node m r)
unfolding find_suitable_node
find_suitable_node-IsChosen m r u =
    let o = m.config.overcommit_ratio in
    let cs = m.node_capacities in
    let xs = candidates o r cs in
    first_node-IsChosen o r cs (sort_candidates r xs) (sort_candidates-Leads r xs) (
      sort_candidates-All (IsCandidate o r cs) r xs
        (candidates-IsCandidate o r cs cs (IsMap-entries cs u)))

-- The node that is chosen is in the map and suitable.
pub chosen_suitable :
    (m : Manager) (r : ReservationRequest) (id : ℕ)
    → IsMap m.node_capacities
    → find_suitable_node m r ≡ some id
    → (c : NodeCapacity) × (get id m.node_capacities ≡ some c)
      × (is_suitable m.config.overcommit_ratio r id c ≡ true)
chosen_suitable m r id u e = let h = rw e at (find_suitable_node-IsChosen m r u) in (h.0, h.1, h.2)

-- Of two nodes that both suit the request, the first is as well placed: it is preferred if the other is,
-- and where both or neither are preferred, it has no fewer cores available.
abbrev pub IsPreferred :
    Overcommit → ReservationRequest → ℕ → NodeCapacity → ℕ → NodeCapacity → Type 0
IsPreferred o r id c j d =
    (contains j r.preferred_node_ids ≡ true → contains id r.preferred_node_ids ≡ true)
    × (contains id r.preferred_node_ids ≡ contains j r.preferred_node_ids
        → overcommitted o d.total.cpu_cores d.reserved.cpu_cores
          ≤ overcommitted o c.total.cpu_cores c.reserved.cpu_cores)

stands_before-IsPreferred :
    (o : Overcommit) (r : ReservationRequest) (id : ℕ) (c : NodeCapacity) (j : ℕ) (d : NodeCapacity)
    → stands_before r (candidate_of o id c) (candidate_of o j d) ≡ true
    → IsPreferred o r id c j d
unfolding stands_before
stands_before-IsPreferred o r id c j d h = (λ e. ground arith, λ e. ground arith)

-- Where a node of the map, in which each node has one entry, is suitable for a request, a suitable node
-- is chosen. The chosen node is one of the preferred nodes if that one is; and if both are or neither
-- is, the chosen one has no fewer cores available.
pub chosen_first :
    (m : Manager) (r : ReservationRequest) (j : ℕ) (d : NodeCapacity)
    → IsMap m.node_capacities
    → get j m.node_capacities ≡ some d
    → is_suitable m.config.overcommit_ratio r j d ≡ true
    → (id : ℕ) × (c : NodeCapacity) × (find_suitable_node m r ≡ some id)
      × (get id m.node_capacities ≡ some c)
      × (is_suitable m.config.overcommit_ratio r id c ≡ true)
      × IsPreferred m.config.overcommit_ratio r id c j d
chosen_first m r j d u g s =
    let o = m.config.overcommit_ratio in
    let cs = m.node_capacities in
    elim (Option-cases (find_suitable_node m r)) [
      | inl e ↦
          let h : candidates o r cs ≡ [] = rw e at (find_suitable_node-IsChosen m r u) in
          let no : true ≡ false = All-candidates (λ b. true ≡ false) o r j d cs (rw h _) g s in cc
      | inr (id, e) ↦
          let h = rw e at (find_suitable_node-IsChosen m r u) in
          let first = λ (b : Candidate). stands_before r (candidate_of o id h.0) b ≡ true in
          let before = All-candidates first o r j d cs h.3 g s in
          (id, h.0, e, h.1, h.2, stands_before-IsPreferred o r id h.0 j d before)
    ]

pub request_reservation_untimely :
    (m : Manager) (r : ReservationRequest) (now id : ℕ)
    → is_timely m.config r now ≡ false
    → request_reservation m r now id ≡ (m, none)
unfolding request_reservation
request_reservation_untimely m r now id t = rw (t, request_reservation) refl

pub request_reservation_placed :
    (m : Manager) (r : ReservationRequest) (now id : ℕ)
    → is_timely m.config r now ≡ true
    → request_reservation m r now id ≡ place m r now id (find_suitable_node m r)
unfolding request_reservation
request_reservation_placed m r now id t = rw (t, request_reservation) refl

-- A reservation that is granted is for times within the configured bounds and on a suitable node, and
-- the manager is then the one in which it is booked there.
pub request_granted :
    (m : Manager) (r : ReservationRequest) (now id : ℕ) (granted : ResourceReservation)
    → IsMap m.node_capacities
    → (request_reservation m r now id).1 ≡ some granted
    → let m' = (request_reservation m r now id).0 in
      (c : NodeCapacity) × (is_timely m.config r now ≡ true)
      × (get granted.node_id m.node_capacities ≡ some c)
      × (is_suitable m.config.overcommit_ratio r granted.node_id c ≡ true)
      × (granted ≡ reservation_of id granted.node_id r now)
      × (m' ≡ (book m r now id granted.node_id).0)
unfolding book
request_granted m r now id granted u e = elim (Bool-cases (is_timely m.config r now)) [
  | inr t ↦ let no : none ≡ some granted = cc (request_reservation_untimely m r now id t, e) in cc
  | inl t ↦ elim (Option-cases (find_suitable_node m r)) [
    | inl f ↦
        let p = request_reservation_placed m r now id t in
        let no : none ≡ some granted = rw (p, f) at e in cc
    | inr (n, f) ↦
        let p = request_reservation_placed m r now id t in
        let booked : some (reservation_of id n r now) ≡ some granted = rw (p, f) at e in
        let is : reservation_of id n r now ≡ granted = cc booked in
        let (c, g, s) = chosen_suitable m r n u f in rw (← is) (c, t, g, s, refl, rw (p, f) refl)
  ]
]

-- A request for times within the configured bounds is granted, and booked at some node, where a
-- suitable node is known.
request_grants :
    (m : Manager) (r : ReservationRequest) (now id j : ℕ) (d : NodeCapacity)
    → IsMap m.node_capacities
    → is_timely m.config r now ≡ true
    → get j m.node_capacities ≡ some d
    → is_suitable m.config.overcommit_ratio r j d ≡ true
    → (n : ℕ) × (request_reservation m r now id ≡ book m r now id n)
request_grants m r now id j d u t g s =
    let (n, c, e, _, _, _) = chosen_first m r j d u g s in
    (n, request_reservation_placed m r now id t ∙ ap (place m r now id) e)
