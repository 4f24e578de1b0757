-- ===== src/RateLimiter.antt =====
-- src/lib/security/rate-limiter.ts, the class `RateLimiter`. Keys and the names of configurations are
-- numbers; the text `prefix:key` under which an entry is stored is a parameter, a function of the
-- two. The time is an argument. `reset` of a part of a key, and the statistics, are left out.
use edge_cloud_orchestrator.Prelude.{
  ℕ, suc, zero, ◌+◌, ◌-◌, ◌*◌, ◌/◌, Bool, true, false, List, [], ◌∷◌, Option, none, some, ltb, leb,
  ◌==◌, if◌then◌else◌, ◌&&◌,
}
use edge_cloud_orchestrator.Prelude.Dict.{get, put}
pub mod Windows
pub mod Fresh
mod Examples

pub record RateLimitConfig : Type 0 where
  pub window : ℕ
  pub max_requests : ℕ
  pub key_prefix : ℕ

pub record RateLimitEntry : Type 0 where
  pub count : ℕ
  pub reset_time : ℕ

pub data RateLimitResult : Type 0 where
  allowed : ℕ → ℕ → RateLimitResult
  refused : ℕ → ℕ → RateLimitResult
  unknown_config : RateLimitResult

pub record RateLimiter : Type 0 where
  pub store : List (ℕ × RateLimitEntry)
  pub configs : List (ℕ × RateLimitConfig)

-- `DEFAULT_CONFIGS`, whose names and prefixes are auth, api, tasks, nodes and webhooks.
abbrev pub default_configs : List (ℕ × RateLimitConfig)
default_configs =
    (0, record { window = 900000; max_requests = 5; key_prefix = 0 })
    ∷ (1, record { window = 60000; max_requests = 100; key_prefix = 1 })
    ∷ (2, record { window = 60000; max_requests = 30; key_prefix = 2 })
    ∷ (3, record { window = 60000; max_requests = 20; key_prefix = 3 })
    ∷ (4, record { window = 60000; max_requests = 50; key_prefix = 4 })
    ∷ []

abbrev pub new_limiter : RateLimiter
new_limiter = record { store = []; configs = default_configs }

-- The callback of the cleanup timer.
unfoldable pub sweep : ℕ → List (ℕ × RateLimitEntry) → List (ℕ × RateLimitEntry)
sweep now [] = []
sweep now ((k, e) ∷ m) =
    let rest = sweep now m in if leb e.reset_time now then rest else (k, e) ∷ rest

-- The entry that `check` goes on with: the stored one, or a new one if there is none or it is over.
abbrev pub fresh_entry : RateLimitConfig → ℕ → RateLimitEntry
fresh_entry c now = record { count = 0; reset_time = now + c.window }

unfoldable pub entry_at : RateLimitConfig → ℕ → Option RateLimitEntry → RateLimitEntry
entry_at c now none = fresh_entry c now
entry_at c now (some e) = if leb e.reset_time now then fresh_entry c now else e

-- `Math.ceil(ms / 1000)`.
abbrev pub seconds : ℕ → ℕ
seconds ms = (ms + 999) / 1000

-- `check` with its configuration, at the key under which the entry is stored. A new entry is stored
-- also where the request is refused.
unfoldable pub check_entry :
    RateLimitConfig
    → ℕ
    → ℕ
    → List (ℕ × RateLimitEntry)
    → List (ℕ × RateLimitEntry) × RateLimitResult
check_entry c k now m =
    let e = entry_at c now (get k m) in
    if leb c.max_requests e.count
    then (put k e m, refused e.reset_time (seconds (e.reset_time - now)))
    else (
      put k (record e { count = suc e.count }) m,
      allowed (c.max_requests - suc e.count) e.reset_time,
    )

module _ (full_key : ℕ → ℕ → ℕ) where
  unfoldable pub check : RateLimiter → ℕ → ℕ → ℕ → RateLimiter × RateLimitResult
  check l key config_key now = elim (get config_key l.configs) [
    | none ↦ (l, unknown_config)
    | some c ↦
        let (m, r) = check_entry c (full_key c.key_prefix key) now l.store in
        (record l { store = m }, r)
  ]

unfoldable pub set_config : RateLimiter → ℕ → RateLimitConfig → RateLimiter
set_config l key c = record l { configs = put key c l.configs }

unfoldable pub cleanup : RateLimiter → ℕ → RateLimiter
cleanup l now = record l { store = sweep now l.store }
