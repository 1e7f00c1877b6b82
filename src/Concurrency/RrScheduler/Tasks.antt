-- ===== src/Concurrency/RrScheduler/Tasks.antt =====
-- rr_scheduler.cpp: the tasks in the queues before and after a call.
use cmake_template.Base.{
  ℕ, zero, suc, ◌+◌, ◌%◌, ◌<◌, ◌≡◌, refl, ◌∙◌, Bool, true, false, List, mul_size, length, arith,
  add_uint,
}
use cmake_template.Concurrency.Queue.{
  Queue, Reply, nullopt, waits, push, try_push, item, fault, pop, try_pop,
}
use cmake_template.Concurrency.RrScheduler.{
  RrScheduler, pop_own, scheduled, try_schedule, push_own, schedule, scan,
}
use cmake_template.Concurrency.RrScheduler.Access.{on_queue, length-on_queue}
use cmake_template.Concurrency.RrScheduler.Weights.{
  weigh_queues, weigh_reply, left_over, try_pop-weight, pop-weight, try_push-weight, push-weight,
}

module _ {ℓ} {A : Type ℓ} (w : A → ℕ) (locks : ℕ → Bool) (t : ℕ) where
  pub length-scan : (k n : ℕ) (qs : List (Queue A)) → length (scan locks t k n qs).1 ≡ length qs
  unfolding scan
  length-scan zero n qs = refl
  length-scan (suc k) n qs =
      let i = add_uint t n % length qs in
      let qs' = (on_queue fault (try_pop (locks n)) qs i).1 in
      ground (arith, length-on_queue fault (try_pop (locks n)) qs i, length-scan k (n + 1) qs')

  scan-weight :
      (k n : ℕ) (qs : List (Queue A))
      → 0 < length qs
      → let (r, qs') = scan locks t k n qs in
        weigh_queues w qs' + weigh_reply w r ≡ weigh_queues w qs
  unfolding scan
  scan-weight zero n qs h = omega arith
  scan-weight (suc k) n qs h =
      let i = add_uint t n % length qs in
      let qs' = (on_queue fault (try_pop (locks n)) qs i).1 in
      ground (
        arith,
        try_pop-weight w (locks n) qs i (omega arith),
        length-on_queue fault (try_pop (locks n)) qs i,
        scan-weight k (n + 1) qs',
      )

  pop_own-weight :
      (r : Reply A) (qs : List (Queue A))
      → 0 < length qs
      → let (r', qs') = pop_own t (r, qs) in
        weigh_queues w qs' + weigh_reply w r' ≡ weigh_queues w qs + weigh_reply w r
  unfolding pop_own
  pop_own-weight (item a) qs h = refl
  pop_own-weight nullopt qs h = omega (arith, pop-weight w qs (t % length qs) (omega arith))
  pop_own-weight waits qs h = omega (arith, pop-weight w qs (t % length qs) (omega arith))
  pop_own-weight fault qs h = omega (arith, pop-weight w qs (t % length qs) (omega arith))

  -- With at least one queue, a call of `scheduled` takes out of the queues exactly the task that it
  -- hands to its caller, and nothing if it answers with no task or waits: whatever the thread,
  -- whichever locks it gets and whatever weight counts the tasks, those that remain and the one
  -- handed over weigh what was queued.
  pub scheduled-weight :
      (qs : List (Queue A))
      → 0 < length qs
      → let (r, qs') = scheduled locks t qs in
        weigh_queues w qs' + weigh_reply w r ≡ weigh_queues w qs
  unfolding scheduled
  scheduled-weight qs h =
      let first = scan locks t (length qs) 0 qs in
      omega (
        arith,
        pop_own-weight first.0 first.1 (omega (arith, length-scan (length qs) 0 qs)),
        scan-weight (length qs) 0 qs h,
      )

  pub length-scheduled : (qs : List (Queue A)) → length (scheduled locks t qs).1 ≡ length qs
  unfolding scheduled
  length-scheduled qs =
      let first = scan locks t (length qs) 0 qs in
      own first.0 first.1 ∙ length-scan (length qs) 0 qs
    where
      own : (r : Reply A) (qs : List (Queue A)) → length (pop_own t (r, qs)).1 ≡ length qs
      own (item a) qs = refl
      own nullopt qs = length-on_queue fault pop qs (t % length qs)
      own waits qs = length-on_queue fault pop qs (t % length qs)
      own fault qs = length-on_queue fault pop qs (t % length qs)

module _ {ℓ} {A : Type ℓ} (w : A → ℕ) (locks : ℕ → Bool) (a : A) where
  try_schedule-weight :
      (t k n : ℕ) (qs : List (Queue A))
      → 0 < length qs
      → let (done, qs') = try_schedule locks t k n a qs in
        (weigh_queues w qs' + left_over w a done ≡ weigh_queues w qs + w a)
        × (length qs' ≡ length qs)
  unfolding try_schedule
  try_schedule-weight t zero n qs h = omega arith
  try_schedule-weight t (suc k) n qs h =
      let i = add_uint t n % length qs in
      let qs' = (on_queue false (try_push (locks n) a) qs i).1 in
      ground (
        arith,
        try_push-weight w (locks n) a qs i (omega arith),
        length-on_queue false (try_push (locks n) a) qs i,
        try_schedule-weight t k (n + 1) qs',
      )

  push_own-weight :
      (i : ℕ) (done : Bool) (qs : List (Queue A))
      → 0 < length qs
      → (weigh_queues w (push_own i a (done, qs)) ≡ weigh_queues w qs + left_over w a done)
        × (length (push_own i a (done, qs)) ≡ length qs)
  unfolding push_own
  push_own-weight i true qs h = omega arith
  push_own-weight i false qs h =
      let j = i % length qs in
      ground (
        arith,
        push-weight w a qs j (omega arith),
        length-on_queue false (λ q. (true, push a q)) qs j,
      )

  -- With at least one queue, `schedule` adds its task to the queues exactly once, whichever of its
  -- attempts find a queue locked and whatever weight counts the tasks; the number of queues stays.
  pub schedule-weight :
      (s : RrScheduler A)
      → 0 < length s.queues
      → (weigh_queues w (schedule locks a s).queues ≡ weigh_queues w s.queues + w a)
        × (length (schedule locks a s).queues ≡ length s.queues)
  unfolding schedule
  schedule-weight s h =
      let i = s.push_index in
      let tried = try_schedule locks i (mul_size (length s.queues) 4) 0 a s.queues in
      let bound = try_schedule-weight i (mul_size (length s.queues) 4) 0 s.queues h in
      omega (arith, bound, push_own-weight i tried.0 tried.1 (omega (arith, bound)))
