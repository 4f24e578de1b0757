-- ===== src/RateLimiter/Examples.antt =====
-- Concrete runs of src/lib/security/rate-limiter.ts.
use edge_cloud_orchestrator.Prelude.{ℕ, ◌+◌, ◌*◌, ◌≤◌, ◌≡◌, refl, List, [], ◌∷◌, min, arith}
use edge_cloud_orchestrator.Prelude.Dict.{get, put}
use edge_cloud_orchestrator.RateLimiter.{
  RateLimitConfig, RateLimiter, sweep, entry_at, check_entry, check, cleanup,
}
use edge_cloud_orchestrator.RateLimiter.Windows.{Call, checks, cleans, allowed_count, window_bound}
use edge_cloud_orchestrator.RateLimiter.Fresh.{requests, fresh_window}

-- Two requests in a second.
abbrev two_a_second : RateLimitConfig
two_a_second = record { window = 1000; max_requests = 2; key_prefix = 5 }

abbrev limiter : RateLimiter
limiter = record { store = []; configs = (1, two_a_second) ∷ [] }

abbrev full_key : ℕ → ℕ → ℕ
full_key prefix key = 100 * prefix + key

-- An entry that began before the period: four requests are allowed within one window.
abbrev begun : RateLimiter
begun = record {
  store = (507, record { count = 0; reset_time = 3050 }) ∷ [];
  configs = (1, two_a_second) ∷ [];
}

abbrev burst : List Call
burst =
    checks 7 3010
    ∷ checks 7 3020
    ∷ checks 7 3030
    ∷ cleans 3040
    ∷ checks 7 3050
    ∷ checks 8 3060
    ∷ checks 7 3070
    ∷ checks 7 3900
    ∷ []

twice_test : allowed_count full_key 1 507 two_a_second begun burst ≡ 4
unfolding allowed_count check check_entry entry_at cleanup sweep get put
twice_test = refl

window_bound_example :
    allowed_count full_key 1 507 two_a_second begun burst ≤ 2 * two_a_second.max_requests
unfolding get
window_bound_example =
    window_bound full_key 1 507 two_a_second begun burst 3000 refl (refl, _) (omega arith)

fresh_window_example :
    allowed_count full_key 1 507 two_a_second limiter burst
    ≡ min (requests full_key 1 507 two_a_second burst) 2
unfolding get
fresh_window_example =
    fresh_window full_key 1 507 two_a_second limiter burst 3000 refl _ (omega arith) refl
