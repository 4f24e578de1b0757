-- ===== src/CircuitBreaker/Recovery.antt =====
-- How an open breaker recovers (packages/circuit-breaker/src/circuit-breaker.ts: `halfOpenCircuit`,
-- the probes that `execute` lets through, `onSuccess`).
use edge_cloud_orchestrator.Prelude.{
  ℕ, zero, suc, ◌+◌, ◌≤◌, ◌<◌, ◌≡◌, refl, true, List, [], ◌∷◌, Option, none, some, arith, all, ◌∙◌,
}
use edge_cloud_orchestrator.CircuitBreaker.{
  Config, closed, open_, half_open, Breaker, new, Event, enters, succeeds, fails, fires,
  forces_open, forces_close, step, run, enter, rejected_half_open, clear_held,
}
use edge_cloud_orchestrator.CircuitBreaker.Invariant.{IsSound, run-new-IsSound}
use edge_cloud_orchestrator.CircuitBreaker.Wedge.{IsWedged, is_idle, run-IsWedged, IsWedged-rejects}

-- A call that is let in and succeeds, n times.
abbrev pub probes : ℕ → List Event
probes zero = []
probes (suc n) = enters ∷ succeeds ∷ probes n

-- Half open with no timer, after h probes and s successes in a row.
record IsProbing (b : Breaker) (h s : ℕ) : Type 0 where
  probing : b.state ≡ half_open
  timerless : b.scheduled ≡ []
  calls : b.half_open_calls ≡ h
  proved : b.consecutive_successes ≡ s

abbrev probed : Breaker → Breaker
probed b = step (step b enters) succeeds

probe_on :
    (b : Breaker) (h s : ℕ)
    → IsProbing b h s
    → h < b.half_open_max_calls
    → suc s < b.success_threshold
    → IsProbing (probed b) (suc h) (suc s) × ((probed b).config ≡ b.config)
unfolding step
probe_on b h s p l t = ground arith

clear_held_nil : (held : Option ℕ) → clear_held held [] ≡ []
clear_held_nil none = refl
clear_held_nil (some h) = refl

entered :
    (b : Breaker) (h s : ℕ)
    → IsProbing b h s
    → h < b.half_open_max_calls
    → IsProbing (step b enters) (suc h) s × ((step b enters).config ≡ b.config)
unfolding step
entered b h s p l = ground arith

on_success_last :
    (b : Breaker) {h s : ℕ}
    → IsProbing b h s
    → b.success_threshold ≤ suc s
    → ((step b succeeds).state ≡ closed)
      × ((step b succeeds).failures ≡ 0)
      × ((step b succeeds).scheduled ≡ [])
unfolding step
on_success_last b p t = ground (arith, clear_held_nil b.reset_timer)

probe_last :
    (b : Breaker) (h s : ℕ)
    → IsProbing b h s
    → h < b.half_open_max_calls
    → b.success_threshold ≤ suc s
    → ((probed b).state ≡ closed) × ((probed b).failures ≡ 0) × ((probed b).scheduled ≡ [])
probe_last b h s p l t =
    on_success_last (step b enters) (entered b h s p l).0 (rw (entered b h s p l).1 t)

probes_close :
    (n : ℕ) (b : Breaker) (h s : ℕ)
    → 0 < n
    → IsProbing b h s
    → h + n ≤ b.half_open_max_calls
    → s + n ≡ b.success_threshold
    → let b' = run b (probes n) in (b'.state ≡ closed) × (b'.failures ≡ 0) × (b'.scheduled ≡ [])
unfolding run
probes_close zero b h s z p l t = elim z [ ]
probes_close (suc zero) b h s z p l t = probe_last b h s p (omega arith) (omega arith)
probes_close (suc (suc n)) b h s z p l t =
    let (q, c) = probe_on b h s p (omega arith) (omega arith) in
    probes_close (suc n) (probed b) (suc h) (suc s) (omega arith) q (rw c (omega arith))
      (rw c (omega arith))

probes_used_up :
    (n : ℕ) (b : Breaker) (h s : ℕ)
    → IsProbing b h s
    → h + n ≡ b.half_open_max_calls
    → s + n < b.success_threshold
    → IsWedged (run b (probes n))
unfolding run
probes_used_up zero b h s p l t = ground arith
probes_used_up (suc n) b h s p l t =
    let (q, c) = probe_on b h s p (omega arith) (omega arith) in
    probes_used_up n (probed b) (suc h) (suc s) q (rw c (omega arith)) (rw c (omega arith))

step-config : (b : Breaker) (e : Event) → (step b e).config ≡ b.config
unfolding step
step-config b enters = ground arith
step-config b succeeds = ground arith
step-config b (fails now) = ground arith
step-config b (fires handle) = ground arith
step-config b (forces_open now) = ground arith
step-config b forces_close = ground arith

run-config : (b : Breaker) (es : List Event) → (run b es).config ≡ b.config
unfolding run
run-config b [] = refl
run-config b (e ∷ es) = run-config (step b e) es ∙ step-config b e

-- The held timer of a sound open breaker starts its probes.
fire-IsProbing :
    (b : Breaker) (handle : ℕ)
    → IsSound b
    → b.state ≡ open_
    → b.reset_timer ≡ some handle
    → IsProbing (step b (fires handle)) 0 0
unfolding step
fire-IsProbing b handle v o e = ground arith

module _ (c : Config) (es : List Event) (handle : ℕ) where
  abbrev half_opened : Breaker
  half_opened = step (run (new c) es) (fires handle)

  half_opened-config : half_opened.config ≡ c
  half_opened-config = step-config (run (new c) es) (fires handle) ∙ run-config (new c) es

  half_opened-IsProbing :
      (run (new c) es).state ≡ open_
      → (run (new c) es).reset_timer ≡ some handle
      → IsProbing half_opened 0 0
  half_opened-IsProbing o e = fire-IsProbing (run (new c) es) handle (run-new-IsSound c es) o e

-- Whatever led a breaker to be open: once its reset timer fires, as many successful calls as the
-- success threshold, if that is positive and within the probe limit, close it, with no failure
-- counted and no timer pending.
pub open_recovers :
    (c : Config) (es : List Event) (handle : ℕ)
    → (run (new c) es).state ≡ open_
    → (run (new c) es).reset_timer ≡ some handle
    → 0 < c.success_threshold
    → c.success_threshold ≤ c.half_open_max_calls
    → let b = run (step (run (new c) es) (fires handle)) (probes c.success_threshold) in
      (b.state ≡ closed) × (b.failures ≡ 0) × (b.scheduled ≡ [])
open_recovers c es handle o e p l =
    let g = half_opened-config c es handle in
    probes_close c.success_threshold (half_opened c es handle) 0 0 p
      (half_opened-IsProbing c es handle o e) (rw g (omega arith)) (rw g (omega arith))

-- Where the success threshold is above the probe limit, a breaker that opens never recovers by
-- itself: after its timer has fired and all its probes have succeeded it stays half open and rejects
-- the next call, after any further sequence of calls and timers.
pub open_wedges :
    (c : Config) (es : List Event) (handle : ℕ) (later : List Event)
    → (run (new c) es).state ≡ open_
    → (run (new c) es).reset_timer ≡ some handle
    → c.half_open_max_calls < c.success_threshold
    → all is_idle later ≡ true
    → let b =
        run (run (step (run (new c) es) (fires handle)) (probes c.half_open_max_calls)) later in
      (b.state ≡ half_open) × ((enter b).1 ≡ rejected_half_open)
open_wedges c es handle later o e l i = (w.stays, IsWedged-rejects _ w)
  where
    w : IsWedged (run (run (half_opened c es handle) (probes c.half_open_max_calls)) later)
    w = run-IsWedged _ later i (
        probes_used_up c.half_open_max_calls (half_opened c es handle) 0 0
          (half_opened-IsProbing c es handle o e)
          (rw (half_opened-config c es handle) (omega arith))
          (rw (half_opened-config c es handle) (omega arith)))
