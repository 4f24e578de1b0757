-- ===== src/RateLimiter/Windows.antt =====
-- How many requests a limiter allows in a window (src/lib/security/rate-limiter.ts).
use edge_cloud_orchestrator.Prelude.{
  ℕ, suc, ◌+◌, ◌-◌, ◌*◌, ◌≤◌, ◌<◌, ◌≡◌, refl, ap, List, [], ◌∷◌, Option, none, some, leb, ◌==◌,
  if◌then◌else◌, arith, inl, inr, Bool-cases, ==_iff,
}
use edge_cloud_orchestrator.Prelude.Dict.{get, put, get-put, IsMap, put-IsMap}
use edge_cloud_orchestrator.RateLimiter.{
  RateLimitConfig, RateLimitEntry, RateLimitResult, allowed, refused, unknown_config, RateLimiter,
  sweep, entry_at, check_entry, check, cleanup,
}

-- What may still be allowed under a key from the time t until the end of a period.
abbrev budget : RateLimitConfig → ℕ → ℕ → Option RateLimitEntry → ℕ
budget c end t none = c.max_requests
budget c end t (some e) =
    if leb e.reset_time t
    then c.max_requests
    else if leb end e.reset_time
    then c.max_requests - e.count
    else c.max_requests - e.count + c.max_requests

budget_later :
    (c : RateLimitConfig) (end t t' : ℕ) (o : Option RateLimitEntry)
    → t ≤ t'
    → t' < end
    → budget c end t' o ≤ budget c end t o
budget_later c end t t' none h k = omega arith
budget_later c end t t' (some e) h k = ground arith

budget_twice :
    (c : RateLimitConfig) (end t : ℕ) (o : Option RateLimitEntry)
    → budget c end t o ≤ 2 * c.max_requests
budget_twice c end t none = omega arith
budget_twice c end t (some e) = ground arith

budget_checked :
    (c : RateLimitConfig) (end now : ℕ) (o : Option RateLimitEntry)
    → now < end
    → end ≤ now + c.window
    → let e = entry_at c now o in
      let one_more = record e { count = suc e.count } in
      (if leb c.max_requests e.count
        then budget c end now (some e)
        else suc (budget c end now (some one_more)))
      ≤ budget c end now o
unfolding entry_at
budget_checked c end now none l h = ground arith
budget_checked c end now (some e) l h = ground arith

pub get-sweep :
    (k now : ℕ) (m : List (ℕ × RateLimitEntry)) → get k m ≡ none → get k (sweep now m) ≡ none
unfolding get sweep
get-sweep k now [] h = refl
get-sweep k now ((j, e) ∷ m) h = ground (arith, get-sweep k now m)

pub sweep-IsMap : (now : ℕ) (m : List (ℕ × RateLimitEntry)) → IsMap m → IsMap (sweep now m)
unfolding sweep
sweep-IsMap now [] u = _
sweep-IsMap now ((k, e) ∷ m) (n, u) = elim (Bool-cases (leb e.reset_time now)) [
  | inl t ↦ rw t (sweep-IsMap now m u)
  | inr t ↦ rw t (get-sweep k now m n, sweep-IsMap now m u)
]

budget-sweep :
    (c : RateLimitConfig) (end now k : ℕ) (m : List (ℕ × RateLimitEntry))
    → IsMap m
    → budget c end now (get k (sweep now m)) ≡ budget c end now (get k m)
unfolding get sweep
budget-sweep c end now k [] u = refl
budget-sweep c end now k ((j, e) ∷ m) (n, u) =
    ground (arith, budget-sweep c end now k m u, get-sweep k now m)

abbrev pub is_allowed : RateLimitResult → ℕ
is_allowed (allowed remaining reset) = 1
is_allowed (refused reset retry) = 0
is_allowed unknown_config = 0

check_entry-budget :
    (c : RateLimitConfig) (id k now end t : ℕ) (m : List (ℕ × RateLimitEntry))
    → IsMap m
    → t ≤ now
    → now < end
    → end ≤ now + c.window
    → let x = check_entry c k now m in
      ((if k == id then is_allowed x.1 else 0) + budget c end now (get id x.0)
        ≤ budget c end t (get id m))
      × IsMap x.0
unfolding check_entry
check_entry-budget c id k now end t m u h l w =
    let e = entry_at c now (get k m) in
    let one_more = record e { count = suc e.count } in
    let next = budget_checked c end now (get k m) l w in
    let later = budget_later c end t now (get id m) h l in
    elim (Bool-cases (leb c.max_requests e.count)) [
      | inl x ↦ elim (Bool-cases (k == id)) [
        | inl y ↦
            let same : k ≡ id = (==_iff k id).0 y in
            let got : get id (put k e m) ≡ some e = rw y at (get-put k id e m) in
            let here : get k m ≡ get id m = ap (λ i. get i m) same in
            rw (x, y, got)
              (omega (arith, rw x at next, later, ap (budget c end now) here), put-IsMap k e m u)
        | inr y ↦
            let got : get id (put k e m) ≡ get id m = rw y at (get-put k id e m) in
            rw (x, y, got) (omega (arith, later), put-IsMap k e m u)
      ]
      | inr x ↦ elim (Bool-cases (k == id)) [
        | inl y ↦
            let same : k ≡ id = (==_iff k id).0 y in
            let got : get id (put k one_more m) ≡ some one_more =
              rw y at (get-put k id one_more m) in
            let here : get k m ≡ get id m = ap (λ i. get i m) same in
            rw (x, y, got)
              (
                omega (arith, rw x at next, later, ap (budget c end now) here),
                put-IsMap k one_more m u,
              )
        | inr y ↦
            let got : get id (put k one_more m) ≡ get id m = rw y at (get-put k id one_more m) in
            rw (x, y, got) (omega (arith, later), put-IsMap k one_more m u)
      ]
    ]

-- Requests under one configuration, and the timer, in any order.
pub data Call : Type 0 where
  checks : ℕ → ℕ → Call
  cleans : ℕ → Call

abbrev pub time_of : Call → ℕ
time_of (checks key now) = now
time_of (cleans now) = now

-- The calls come in the order of their times, from one time to before another.
abbrev pub Within : ℕ → ℕ → List Call → Type 0
Within t end [] = Unit
Within t end (c ∷ cs) = (t ≤ time_of c) × (time_of c < end) × Within (time_of c) end cs

module _ (full_key : ℕ → ℕ → ℕ) (config_key : ℕ) where
  -- The requests that are allowed under the full key id.
  abbrev pub step : RateLimiter → Call → RateLimiter
  step l (checks key now) = (check full_key l key config_key now).0
  step l (cleans now) = cleanup l now

  abbrev pub counted : ℕ → RateLimitConfig → RateLimiter → Call → ℕ
  counted id c l (checks key now) =
      if full_key c.key_prefix key == id
      then is_allowed (check full_key l key config_key now).1
      else 0
  counted id c l (cleans now) = 0

  unfoldable pub allowed_count : ℕ → RateLimitConfig → RateLimiter → List Call → ℕ
  allowed_count id c l [] = 0
  allowed_count id c l (x ∷ xs) = counted id c l x + allowed_count id c (step l x) xs

  pub check_known :
      (c : RateLimitConfig) (l : RateLimiter) (key now : ℕ)
      → get config_key l.configs ≡ some c
      → let x = check_entry c (full_key c.key_prefix key) now l.store in
        check full_key l key config_key now ≡ (record l { store = x.0 }, x.1)
  unfolding check
  check_known c l key now g = rw (g, check) refl

  step-budget :
      (id : ℕ) (c : RateLimitConfig) (l : RateLimiter) (x : Call) (end t : ℕ)
      → get config_key l.configs ≡ some c
      → IsMap l.store
      → t ≤ time_of x
      → time_of x < end
      → end ≤ time_of x + c.window
      → (counted id c l x + budget c end (time_of x) (get id (step l x).store)
          ≤ budget c end t (get id l.store))
        × (get config_key (step l x).configs ≡ some c)
        × IsMap (step l x).store
  unfolding cleanup
  step-budget id c l (checks key now) end t g u h k w =
      let b = check_entry-budget c id (full_key c.key_prefix key) now end t l.store u h k w in
      let known = check_known c l key now g in
      let state : step l (checks key now)
          ≡ record l { store = (check_entry c (full_key c.key_prefix key) now l.store).0 } =
        ap (λ x. x.0) known in
      rw (known, state) (b.0, g, b.1)
  step-budget id c l (cleans now) end t g u h k w =
      let swept = budget-sweep c end now id l.store u in
      let later = budget_later c end t now (get id l.store) h k in
      (omega (arith, swept, later), g, sweep-IsMap now l.store u)

  count_budget :
      (id : ℕ) (c : RateLimitConfig) (l : RateLimiter) (xs : List Call) (start t : ℕ)
      → get config_key l.configs ≡ some c
      → IsMap l.store
      → start ≤ t
      → Within t (start + c.window) xs
      → allowed_count id c l xs ≤ budget c (start + c.window) t (get id l.store)
  unfolding allowed_count
  count_budget id c l [] start t g u s w = omega arith
  count_budget id c l (x ∷ xs) start t g u s (a, b, w) =
      let end = start + c.window in
      let (n, g', u') = step-budget id c l x end t g u a b (omega arith) in
      omega (arith, n, count_budget id c (step l x) xs start (time_of x) g' u' (omega arith) w)

  -- In any period no longer than the window of a configuration, whatever has been stored before, at most
  -- twice its number of requests are allowed under a key, whichever other keys are checked between and
  -- whenever the cleanup runs.
  pub window_bound :
      (id : ℕ) (c : RateLimitConfig) (l : RateLimiter) (xs : List Call) (start : ℕ)
      → get config_key l.configs ≡ some c
      → IsMap l.store
      → Within start (start + c.window) xs
      → allowed_count id c l xs ≤ 2 * c.max_requests
  window_bound id c l xs start g u w =
      let b = budget_twice c (start + c.window) start (get id l.store) in
      omega (arith, b, count_budget id c l xs start start g u (omega arith) w)
