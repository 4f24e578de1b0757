-- ===== src/TaskQueue/Timers.antt =====
-- What the timers of retries do (src/lib/task-queue.ts).
use edge_cloud_orchestrator.Prelude.{
  ℕ, suc, zero, ◌+◌, ◌-◌, ◌<◌, ◌≡◌, refl, ap, ◌∙◌, List, [], ◌∷◌, ◌++◌, some, ltb, ◌==◌,
  if◌then◌else◌, length, length-append, length-map, map, get_elem?, arith, if_cases,
}
use edge_cloud_orchestrator.TaskQueue.{
  QueuedTask, PriorityTaskQueue, sort_into, sort_tasks, reorder_queue, recalculate, without_at,
  fire, Event, fires, step, run,
}

length-sort_into :
    (q : QueuedTask) (qs : List QueuedTask) → length (sort_into q qs) ≡ suc (length qs)
unfolding sort_into
length-sort_into q [] = refl
length-sort_into q (p ∷ ps) = ground (arith, length-sort_into q ps)

length-sort_tasks : (qs : List QueuedTask) → length (sort_tasks qs) ≡ length qs
unfolding sort_tasks
length-sort_tasks [] = refl
length-sort_tasks (q ∷ qs) = length-sort_into q (sort_tasks qs) ∙ ap suc (length-sort_tasks qs)

length-without_at {ℓ} :
    {A : Type ℓ} (i : ℕ) (xs : List A) (x : A)
    → get_elem? xs i ≡ some x
    → suc (length (without_at i xs)) ≡ length xs
length-without_at i [] x e = cc
length-without_at zero (y ∷ ys) x e = refl
length-without_at (suc i) (y ∷ ys) x e = ap suc (length-without_at i ys x e)

-- How many tasks have an id, and how many timers' tasks have it.
abbrev pub tasks_of : ℕ → List QueuedTask → ℕ
tasks_of id [] = 0
tasks_of id (q ∷ qs) = (if q.id == id then 1 else 0) + tasks_of id qs

abbrev pub timers_of : ℕ → List (ℕ × QueuedTask) → ℕ
timers_of id [] = 0
timers_of id (t ∷ ts) = (if t.1.id == id then 1 else 0) + timers_of id ts

tasks_of-append :
    (id : ℕ) (ps qs : List QueuedTask) → tasks_of id (ps ++ qs) ≡ tasks_of id ps + tasks_of id qs
tasks_of-append id [] qs = omega arith
tasks_of-append id (p ∷ ps) qs = omega (arith, tasks_of-append id ps qs)

tasks_of-recalculate :
    (id now : ℕ) (qs : List QueuedTask) → tasks_of id (map (recalculate now) qs) ≡ tasks_of id qs
tasks_of-recalculate id now [] = refl
tasks_of-recalculate id now (q ∷ qs) = omega (arith, tasks_of-recalculate id now qs)

tasks_of-sort_into :
    (id : ℕ) (q : QueuedTask) (qs : List QueuedTask)
    → tasks_of id (sort_into q qs) ≡ (if q.id == id then 1 else 0) + tasks_of id qs
unfolding sort_into
tasks_of-sort_into id q [] = refl
tasks_of-sort_into id q (p ∷ ps) =
    if_cases (λ qs. tasks_of id qs ≡ (if q.id == id then 1 else 0) + tasks_of id (p ∷ ps))
      (ltb q.priority p.priority) (p ∷ sort_into q ps) (q ∷ p ∷ ps)
      (λ e. omega (arith, tasks_of-sort_into id q ps)) (λ e. refl)

tasks_of-sort_tasks : (id : ℕ) (qs : List QueuedTask) → tasks_of id (sort_tasks qs) ≡ tasks_of id qs
unfolding sort_tasks
tasks_of-sort_tasks id [] = refl
tasks_of-sort_tasks id (q ∷ qs) =
    omega (arith, tasks_of-sort_into id q (sort_tasks qs), tasks_of-sort_tasks id qs)

timers_of-without_at :
    (id i : ℕ) (ts : List (ℕ × QueuedTask)) (t : ℕ × QueuedTask)
    → get_elem? ts i ≡ some t
    → timers_of id ts ≡ (if t.1.id == id then 1 else 0) + timers_of id (without_at i ts)
timers_of-without_at id i [] t e = cc
timers_of-without_at id zero (u ∷ us) t e =
    let same : u ≡ t = cc e in ap (λ v. (if v.1.id == id then 1 else 0) + timers_of id us) same
timers_of-without_at id (suc i) (u ∷ us) t e = omega (arith, timers_of-without_at id i us t e)

-- Each of the timers that fire, at a time and a place in the list, is one of those left then.
abbrev pub AreDue : List (ℕ × ℕ) → ℕ → Type 0
AreDue [] n = Unit
AreDue (f ∷ fs) n = (f.1 < n) × AreDue fs (n - 1)

abbrev firings : List (ℕ × ℕ) → List Event
firings [] = []
firings ((now, i) ∷ fs) = fires now i ∷ firings fs

-- Tasks have gone from timers to the queue, so many of them, and none is lost.
abbrev pub IsMoved : ℕ → ℕ → PriorityTaskQueue → PriorityTaskQueue → Type 0
IsMoved k id s t =
    (tasks_of id t.queue + timers_of id t.timers ≡ tasks_of id s.queue + timers_of id s.timers)
    × (length t.timers + k ≡ length s.timers)
    × (length t.queue ≡ length s.queue + k)

get_elem?-some {ℓ} :
    {A : Type ℓ} (xs : List A) (i : ℕ) → i < length xs → (x : A) × (get_elem? xs i ≡ some x)
get_elem?-some [] i l = absurd (omega (arith, l))
get_elem?-some (x ∷ xs) zero l = (x, refl)
get_elem?-some (x ∷ xs) (suc i) l = get_elem?-some xs i (omega (arith, l))

fire-IsMoved :
    (s : PriorityTaskQueue) (now i : ℕ)
    → i < length s.timers
    → ((fire s now i).started ≡ s.started)
      × ((fire s now i).processing ≡ s.processing)
      × ((id : ℕ) → IsMoved 1 id s (fire s now i))
unfolding fire reorder_queue
fire-IsMoved s now i l =
    let (t, e) = get_elem?-some s.timers i l in
    let put = s.queue ++ t.1 ∷ [] in
    let sorted = length-sort_tasks (map (recalculate now) put) in
    let mapped = length-map (recalculate now) put in
    let more = length-append s.queue (t.1 ∷ []) in
    let fewer = length-without_at i s.timers t e in
    let kept = λ (id : ℕ).
      tasks_of-sort_tasks id (map (recalculate now) put)
      ∙ tasks_of-recalculate id now put
      ∙ tasks_of-append id s.queue (t.1 ∷ []) in
    rw (e, fire)
      (
        refl,
        refl,
        λ id. (
          let k = kept id in let w = timers_of-without_at id i s.timers t e in omega (arith, k, w),
          omega (arith, fewer),
          omega (arith, sorted, mapped, more),
        ),
      )

-- However many of the retries' timers fire, each of them one that is left then, no task is started by
-- them, not even where a processor is idle: for each that fires there is one timer less and one task
-- more in the queue, and of each id as many tasks wait, in the queue and with timers together, as
-- before.
pub firings_start_nothing :
    (s : PriorityTaskQueue) (fs : List (ℕ × ℕ))
    → AreDue fs (length s.timers)
    → let t = run s (firings fs) in
      (t.started ≡ s.started)
      × (t.processing ≡ s.processing)
      × ((id : ℕ) → IsMoved (length fs) id s t)
unfolding run step
firings_start_nothing s [] d = (refl, refl, λ id. (refl, omega arith, omega arith))
firings_start_nothing s ((now, i) ∷ fs) (l, d) =
    let (a, b, c) = fire-IsMoved s now i l in
    let left : length (fire s now i).timers ≡ length s.timers - 1 = omega (arith, (c 0).1) in
    let (a', b', c') = firings_start_nothing (fire s now i) fs (rw left d) in
    (
      a' ∙ a,
      b' ∙ b,
      λ id.
          let (x, y, z) = c id in
          let (x', y', z') = c' id in (x' ∙ x, omega (arith, y, y'), omega (arith, z, z')),
    )
