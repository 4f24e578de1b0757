-- ===== src/Reservation/Bounds.antt =====
-- What is reserved of a node (src/lib/reservation/ResourceReservationManager.ts) stays within what it
-- has, cores and memory within the overcommitted amounts.
use edge_cloud_orchestrator.Prelude.{ℕ, ◌+◌, ◌-◌, ◌*◌, ◌/◌, ◌≤◌, ◌≡◌, ap, true, arith}
use edge_cloud_orchestrator.Reservation.Node.{
  ReservedResources, NodeCapacity, Overcommit, is_sufficient, fits_overcommitted, reserve, release,
}
use native.Mathlib.Nat.{div-mul-le_self, mul-le-mul_left, mul-le-mul_right}

ratio_bound :
    (d reserved wanted num den : ℕ)
    → den ≤ num
    → wanted ≤ d * num / den
    → (reserved + wanted) * den ≤ (reserved + d) * num
ratio_bound d reserved wanted num den h w =
    omega (arith, mul-le-mul_left reserved h, mul-le-mul_right den w, div-mul-le_self (d * num) den)

-- An overcommitted amount is reserved within the ratio of the total.
fits_overcommitted-le :
    (o : Overcommit) (total reserved wanted : ℕ)
    → o.den ≤ o.num
    → fits_overcommitted o total reserved wanted ≡ true
    → (reserved + wanted) * o.den ≤ total * o.num
fits_overcommitted-le o total reserved wanted d h =
    let le : reserved ≤ total = ground arith in
    let w : wanted ≤ (total - reserved) * o.num / o.den = ground arith in
    let total_is : reserved + (total - reserved) ≡ total = omega arith in
    omega (
      arith,
      ratio_bound (total - reserved) reserved wanted o.num o.den d w,
      ap (λ t. t * o.num) total_is,
    )

-- What is reserved of a node.
abbrev pub IsWithin : Overcommit → NodeCapacity → Type 0
IsWithin o c =
    (c.reserved.cpu_cores * o.den ≤ c.total.cpu_cores * o.num)
    × (c.reserved.memory_mb * o.den ≤ c.total.memory_mb * o.num)
    × (c.reserved.storage_gb ≤ c.total.storage_gb)
    × (c.reserved.network_mbps ≤ c.total.network_mbps)
    × (c.reserved.gpu_units ≤ c.total.gpu_units)

pub reserve-IsWithin :
    (o : Overcommit) (c : NodeCapacity) (r : ReservedResources)
    → o.den ≤ o.num
    → is_sufficient o c r ≡ true
    → IsWithin o (reserve c r)
unfolding is_sufficient reserve
reserve-IsWithin o c r d h = (
  fits_overcommitted-le o c.total.cpu_cores c.reserved.cpu_cores r.cpu_cores d (ground arith),
  fits_overcommitted-le o c.total.memory_mb c.reserved.memory_mb r.memory_mb d (ground arith),
  ground arith,
  ground arith,
  ground arith,
)

sub-le : (a b : ℕ) → a - b ≤ a
sub-le a b = omega arith

pub release-IsWithin :
    (o : Overcommit) (c : NodeCapacity) (r : ReservedResources)
    → IsWithin o c
    → IsWithin o (release c r)
unfolding release
release-IsWithin o c r (w, w2, w3, w4, w5) = (
  omega (arith, w, mul-le-mul_right o.den (sub-le c.reserved.cpu_cores r.cpu_cores)),
  omega (arith, w2, mul-le-mul_right o.den (sub-le c.reserved.memory_mb r.memory_mb)),
  omega (arith, w3),
  omega (arith, w4),
  omega (arith, w5),
)
