-- ===== src/RateLimiter/Fresh.antt =====
-- Which requests of a fresh window a limiter allows (src/lib/security/rate-limiter.ts).
use edge_cloud_orchestrator.Prelude.{
  ℕ, suc, ◌+◌, ◌-◌, ◌≤◌, ◌<◌, ◌≡◌, refl, sym, ap, ◌∙◌, false, List, [], ◌∷◌, Option, none, some,
  leb, ◌==◌, if◌then◌else◌, min, arith, inl, inr, Bool-cases, ==_iff,
}
use edge_cloud_orchestrator.Prelude.Dict.{get, get-put, IsMap, put-IsMap}
use edge_cloud_orchestrator.RateLimiter.{
  RateLimitConfig, RateLimitEntry, RateLimiter, sweep, entry_at, check_entry, cleanup,
}
use edge_cloud_orchestrator.RateLimiter.Windows.{
  Call, checks, cleans, Within, is_allowed, step, allowed_count, check_known, sweep-IsMap,
}

-- How many requests an entry that lasts until the end of the period still allows.
abbrev quota : RateLimitConfig → Option RateLimitEntry → ℕ
quota c none = c.max_requests
quota c (some e) = c.max_requests - e.count

abbrev Lasts : ℕ → Option RateLimitEntry → Type 0
Lasts end none = Unit
Lasts end (some e) = end ≤ e.reset_time

-- What a check leaves, and whether it allows the request.
abbrev after_check : RateLimitConfig → ℕ → Option RateLimitEntry → RateLimitEntry × ℕ
after_check c now o =
    let e = entry_at c now o in
    if leb c.max_requests e.count then (e, 0) else (record e { count = suc e.count }, 1)

after_check-quota :
    (c : RateLimitConfig) (end now : ℕ) (o : Option RateLimitEntry)
    → now < end
    → end ≤ now + c.window
    → Lasts end o
    → let x = after_check c now o in
      Lasts end (some x.0) × ((n : ℕ) → x.1 + min n (quota c (some x.0)) ≡ min (suc n) (quota c o))
unfolding entry_at
after_check-quota c end now none l w h = (ground arith, λ n. ground arith)
after_check-quota c end now (some e) l w h = (ground arith, λ n. ground arith)

check_entry_same :
    (c : RateLimitConfig) (k now : ℕ) (m : List (ℕ × RateLimitEntry))
    → let y = check_entry c k now m in
      let x = after_check c now (get k m) in (get k y.0 ≡ some x.0) × (is_allowed y.1 ≡ x.1)
unfolding check_entry
check_entry_same c k now m =
    let e = entry_at c now (get k m) in
    let one_more = record e { count = suc e.count } in
    (ground (arith, get-put k k e m, get-put k k one_more m), ground arith)

check_entry_other :
    (c : RateLimitConfig) (k id now : ℕ) (m : List (ℕ × RateLimitEntry))
    → (k == id) ≡ false
    → get id (check_entry c k now m).0 ≡ get id m
unfolding check_entry
check_entry_other c k id now m n =
    let e = entry_at c now (get k m) in
    let one_more = record e { count = suc e.count } in
    ground (arith, get-put k id e m, get-put k id one_more m)

check_entry-IsMap :
    (c : RateLimitConfig) (k now : ℕ) (m : List (ℕ × RateLimitEntry))
    → IsMap m
    → IsMap (check_entry c k now m).0
unfolding check_entry
check_entry-IsMap c k now m u =
    let e = entry_at c now (get k m) in
    let one_more = record e { count = suc e.count } in
    elim (Bool-cases (leb c.max_requests e.count)) [
      | inl x ↦ rw x (put-IsMap k e m u)
      | inr x ↦ rw x (put-IsMap k one_more m u)
    ]

sweep-Lasts :
    (end now k : ℕ) (m : List (ℕ × RateLimitEntry))
    → now < end
    → IsMap m
    → Lasts end (get k m)
    → get k (sweep now m) ≡ get k m
unfolding get sweep
sweep-Lasts end now k [] l u h = refl
sweep-Lasts end now k ((j, e) ∷ m) l (n, u) h = elim (Bool-cases (j == k)) [
  | inl y ↦
      let h' : end ≤ e.reset_time = rw y at h in
      let late : leb e.reset_time now ≡ false = ground arith in ground arith
  | inr y ↦
      let h' : Lasts end (get k m) = rw y at h in
      let rest = sweep-Lasts end now k m l u h' in ground arith
]

module _ (full_key : ℕ → ℕ → ℕ) (config_key : ℕ) where
  -- The requests for a full key.
  abbrev pub requests : ℕ → RateLimitConfig → List Call → ℕ
  requests id c [] = 0
  requests id c (checks key now ∷ xs) =
      (if full_key c.key_prefix key == id then 1 else 0) + requests id c xs
  requests id c (cleans now ∷ xs) = requests id c xs

  count_quota :
      (id : ℕ) (c : RateLimitConfig) (l : RateLimiter) (xs : List Call) (start t : ℕ)
      → get config_key l.configs ≡ some c
      → IsMap l.store
      → start ≤ t
      → Within t (start + c.window) xs
      → Lasts (start + c.window) (get id l.store)
      → allowed_count full_key config_key id c l xs
        ≡ min (requests id c xs) (quota c (get id l.store))
  unfolding allowed_count cleanup
  count_quota id c l [] start t g u s w h = omega arith
  count_quota id c l (cleans now ∷ xs) start t g u s (a, b, w) h =
      let same = sweep-Lasts (start + c.window) now id l.store b u h in
      let h' : Lasts (start + c.window) (get id (sweep now l.store)) = rw same h in
      let u' = sweep-IsMap now l.store u in
      let ih = count_quota id c (cleanup l now) xs start now g u' (omega arith) w h' in
      omega (arith, ih, ap (quota c) same)
  count_quota id c l (checks key now ∷ xs) start t g u s (a, b, w) h =
      let k = full_key c.key_prefix key in
      let m = (check_entry c k now l.store).0 in
      let l' = record l { store = m } in
      let u' = check_entry-IsMap c k now l.store u in
      let known = check_known full_key config_key c l key now g in
      let state : step full_key config_key l (checks key now) ≡ l' = ap (λ x. x.0) known in
      elim (Bool-cases (k == id)) [
        | inl y ↦
            let same : k ≡ id = (==_iff k id).0 y in
            let o = get k l.store in
            let (got, one) = check_entry_same c k now l.store in
            let here = ap (λ i. get i m) (sym same) ∙ got in
            let (lasts, q) =
              after_check-quota c (start + c.window) now o b (omega arith) (rw same h) in
            let h' : Lasts (start + c.window) (get id l'.store) = rw here lasts in
            let ih = count_quota id c l' xs start now g u' (omega arith) w h' in
            rw (y, known, state)
              (omega (
                arith,
                ih,
                one,
                q (requests id c xs),
                ap (quota c) here,
                ap (λ i. quota c (get i l.store)) same,
              ))
        | inr y ↦
            let other = check_entry_other c k id now l.store y in
            let h' : Lasts (start + c.window) (get id l'.store) = rw other h in
            let ih = count_quota id c l' xs start now g u' (omega arith) w h' in
            rw (y, state) (omega (arith, ih, ap (quota c) other))
      ]

  -- In a window that begins with no entry for a key, as many requests for the key are allowed as there
  -- are, up to the number that the configuration names, whichever other keys are checked between and
  -- whenever the cleanup runs.
  pub fresh_window :
      (id : ℕ) (c : RateLimitConfig) (l : RateLimiter) (xs : List Call) (start : ℕ)
      → get config_key l.configs ≡ some c
      → IsMap l.store
      → Within start (start + c.window) xs
      → get id l.store ≡ none
      → allowed_count full_key config_key id c l xs ≡ min (requests id c xs) c.max_requests
  fresh_window id c l xs start g u w n =
      let h : Lasts (start + c.window) (get id l.store) = rw n _ in
      rw n at (count_quota id c l xs start start g u (omega arith) w h)
