-- ===== src/Reservation/Node.antt =====
-- src/lib/reservation/ResourceReservationManager.ts: the capacity of a node and what is reserved of
-- it.
use edge_cloud_orchestrator.Prelude.{ℕ, ◌+◌, ◌-◌, ◌*◌, ◌/◌, Bool, leb, ◌&&◌}

pub record ReservedResources : Type 0 where
  pub cpu_cores : ℕ
  pub memory_mb : ℕ
  pub storage_gb : ℕ
  pub network_mbps : ℕ
  pub gpu_units : ℕ

pub record NodeCapacity : Type 0 where
  pub node_id : ℕ
  pub total : ReservedResources
  pub reserved : ReservedResources

pub record Overcommit : Type 0 where
  pub num : ℕ
  pub den : ℕ

-- What a node that `syncNodeCapacities` meets for the first time gets.
abbrev pub default_capacity : ℕ → NodeCapacity
default_capacity id = record {
  node_id = id;
  total = record {
    cpu_cores = 8;
    memory_mb = 8192;
    storage_gb = 100;
    network_mbps = 1000;
    gpu_units = 0;
  };
  reserved = record {
    cpu_cores = 0;
    memory_mb = 0;
    storage_gb = 0;
    network_mbps = 0;
    gpu_units = 0;
  };
}

-- `total - reserved >= wanted`.
abbrev pub fits : ℕ → ℕ → ℕ → Bool
fits total reserved wanted = leb reserved total && leb wanted (total - reserved)

-- `Math.floor((total - reserved) * ratio)`, where it is not negative.
abbrev pub overcommitted : Overcommit → ℕ → ℕ → ℕ
overcommitted o total reserved = (total - reserved) * o.num / o.den

abbrev pub fits_overcommitted : Overcommit → ℕ → ℕ → ℕ → Bool
fits_overcommitted o total reserved wanted =
    leb reserved total && leb wanted (overcommitted o total reserved)

-- The test of `findSuitableNode` whether what is available is sufficient.
unfoldable pub is_sufficient : Overcommit → NodeCapacity → ReservedResources → Bool
is_sufficient o c r =
    fits_overcommitted o c.total.cpu_cores c.reserved.cpu_cores r.cpu_cores
    && (fits_overcommitted o c.total.memory_mb c.reserved.memory_mb r.memory_mb
        && (fits c.total.storage_gb c.reserved.storage_gb r.storage_gb
            && (fits c.total.network_mbps c.reserved.network_mbps r.network_mbps
                && fits c.total.gpu_units c.reserved.gpu_units r.gpu_units)))

-- `reserveCapacity` at a node that is known.
unfoldable pub reserve : NodeCapacity → ReservedResources → NodeCapacity
reserve c r = record c {
  reserved = record {
    cpu_cores = c.reserved.cpu_cores + r.cpu_cores;
    memory_mb = c.reserved.memory_mb + r.memory_mb;
    storage_gb = c.reserved.storage_gb + r.storage_gb;
    network_mbps = c.reserved.network_mbps + r.network_mbps;
    gpu_units = c.reserved.gpu_units + r.gpu_units;
  };
}

-- `releaseCapacity` at a node that is known; `Math.max(0, a - b)` is the difference of natural
-- numbers.
unfoldable pub release : NodeCapacity → ReservedResources → NodeCapacity
release c r = record c {
  reserved = record {
    cpu_cores = c.reserved.cpu_cores - r.cpu_cores;
    memory_mb = c.reserved.memory_mb - r.memory_mb;
    storage_gb = c.reserved.storage_gb - r.storage_gb;
    network_mbps = c.reserved.network_mbps - r.network_mbps;
    gpu_units = c.reserved.gpu_units - r.gpu_units;
  };
}
