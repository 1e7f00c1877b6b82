-- ===== src/Concurrency/ThreadPool/Threads/Costs.antt =====
-- How many steps the threads of the pool still have before them.
use cmake_template.Base.{
  weigh, weigh-append, ℕ, ◌+◌, ◌-◌, ◌*◌, ◌<◌, ◌≤◌, ◌≡◌, Bool, true, false, [], ◌∷◌, length, Option,
  some, none, arith,
}
use cmake_template.Concurrency.Condition.{notify_one, notify_all, run_woken}
use cmake_template.Concurrency.Queue.{
  Queue, Reply, item, nullopt, waits, fault, pop, try_pop, resume_pop, push, try_push,
}
use cmake_template.Concurrency.Queue.Wakeup.{System, settled, pushed}
use cmake_template.Concurrency.RrScheduler.Weights.{
  weigh_reply, pop-weight-at, try_pop-weight-at, resume_pop-weight-at,
}
use cmake_template.Concurrency.ThreadPool.Threads
use cmake_template.Concurrency.ThreadPool.Threads.{
  Worker, scanning, asleep, exited, busy, Call, Phase, constructing, running, closing, Pool, Step,
  Reach, after_try, after_pop, after_resume, after_push,
}
use cmake_template.Concurrency.ThreadPool.Threads.Sleepers.{parked, sleeper}

module _ {ℓ} {A S : Type ℓ} {exec : A → S → S} where
  -- The steps that the program's other threads choose to make, or that the system makes unasked.
  abbrev pub from_outside : {p q : Pool A S} → Step exec p q → Bool
  from_outside (Threads.begins a) = true
  from_outside (Threads.wakes_spuriously c s e) = true
  from_outside (Threads.destroys f) = true
  from_outside _ = false

-- With `k` queues. An item in a queue may wake a worker, keep it busy, and send it round again.
module _ (k : ℕ) where
  abbrev pub phase_cost : ℕ → Phase → ℕ
  phase_cost spawned constructing = (k - spawned) * (k + 3) + (3 * k + 1)
  phase_cost spawned running = 0
  phase_cost spawned (closing c) = 3 * (k - c)

  module _ {ℓ} {A : Type ℓ} where
    abbrev pub worker_cost : Worker A → ℕ
    worker_cost (scanning n) = k + 1 - n
    worker_cost (busy a) = k + 2
    worker_cost asleep = 0
    worker_cost exited = 0

    abbrev pub call_cost : Option (Call A) → ℕ
    call_cost none = 0
    call_cost (some call) = (k * 4 - call.tries) + (k + 5)

    abbrev pub item_cost : A → ℕ
    item_cost _ = k + 2

    abbrev pub cell_cost : System A → ℕ
    cell_cost s = weigh item_cost s.queue.container + s.waiters.woken + 2 * s.ones + 2 * s.alls

  module _ {ℓ} {A S : Type ℓ} where
    -- A bound on the number of steps, `from_outside` not counted.
    unfoldable pub steps_left : Pool A S → ℕ
    steps_left p =
        weigh worker_cost p.workers
        + weigh call_cost p.calls
        + weigh cell_cost p.cells
        + phase_cost p.spawned p.phase
        + (p.spawned - length p.workers) * (k + 2)

-- One less to go.
pub times_ahead : (m a b : ℕ) → a < m → (m - a) * b ≡ (m - (a + 1)) * b + b
times_ahead m a b h = let next : m - a ≡ m - (a + 1) + 1 = omega (arith, h) in rw next (omega arith)

-- A worker that takes from a queue.
module _ {ℓ} {A : Type ℓ} (k : ℕ) where
  after_try-cost :
      (n : ℕ) (r : Reply A)
      → n < k
      → worker_cost k (after_try n r)
        < worker_cost k {A = A} (scanning n) + weigh_reply (item_cost k) r
  after_try-cost n (item a) h = omega arith
  after_try-cost n nullopt h = omega arith
  after_try-cost n waits h = omega arith
  after_try-cost n fault h = omega arith

  pub tries-cost :
      (locked : Bool) (n : ℕ) (s : System A)
      → n < k
      → cell_cost k (Threads.after_try_pop locked s)
          + worker_cost k (after_try n (try_pop locked s.queue).0)
        < cell_cost k s + worker_cost k {A = A} (scanning n)
  tries-cost locked n s h = omega (
    arith,
    after_try-cost n (try_pop locked s.queue).0 h,
    try_pop-weight-at (item_cost k) locked s.queue.is_cancelled s.queue.container,
  )

  -- `settled` wakes nobody.
  after_pop-cost :
      (s : System A) (r : Reply A) (q : Queue A)
      → weigh (item_cost k) q.container + weigh_reply (item_cost k) r
        ≡ weigh (item_cost k) s.queue.container
      → cell_cost k (settled s s.waiters (r, q)) + worker_cost k (after_pop r) ≤ cell_cost k s
  unfolding settled
  after_pop-cost s (item a) q e = omega (arith, e)
  after_pop-cost s nullopt q e = omega (arith, e)
  after_pop-cost s waits q e = omega (arith, e)
  after_pop-cost s fault q e = omega (arith, e)

  pub pops-cost :
      (s : System A)
      → cell_cost k (settled s s.waiters (pop s.queue)) + worker_cost k (after_pop (pop s.queue).0)
        < cell_cost k s + worker_cost k {A = A} (scanning k)
  pops-cost s = omega (
    arith,
    after_pop-cost s (pop s.queue).0 (pop s.queue).1
        (pop-weight-at (item_cost k) s.queue.is_cancelled s.queue.container),
  )

  pub wakes-cost :
      (s : System A)
      → 0 < s.waiters.woken
      → cell_cost k (after_resume s) + worker_cost k (after_pop (resume_pop s.queue).0)
        < cell_cost k s + worker_cost k {A = A} asleep
  unfolding settled
  wakes-cost s h = omega (
    arith,
    h,
    after_pop-cost (record s { waiters = run_woken s.waiters }) (resume_pop s.queue).0
        (resume_pop s.queue).1
        (resume_pop-weight-at (item_cost k) s.queue.is_cancelled s.queue.container),
  )

  pub try_pushes-cost :
      (call : Call A) (locked : Bool) (s : System A)
      → call.tries < k * 4
      → cell_cost k (pushed s (try_push locked call.task s.queue))
          + call_cost k (after_push call (try_push locked call.task s.queue).0)
        < cell_cost k s + call_cost k (some call)
  unfolding pushed try_push
  try_pushes-cost call true s h =
      omega (arith, weigh-append (item_cost k) s.queue.container (call.task ∷ []))
  try_pushes-cost call false s h = omega (arith, h)

  pub pushes-cost :
      (call : Call A) (s : System A)
      → cell_cost k (record s { queue = push call.task s.queue; ones = s.ones + 1 })
        < cell_cost k s + call_cost k (some call)
  unfolding push
  pushes-cost call s = omega (arith, weigh-append (item_cost k) s.queue.container (call.task ∷ []))

  pub notifies-cost :
      (s : System A)
      → 0 < s.ones
      → cell_cost k (record s { waiters = notify_one s.waiters; ones = s.ones - 1 }) < cell_cost k s
  notifies-cost s h = ground arith

  -- At most one thread sleeps on a queue.
  pub notifies_all-cost :
      (s : System A)
      → parked s ≤ 1
      → 0 < s.alls
      → cell_cost k (record s { waiters = notify_all s.waiters; alls = s.alls - 1 }) < cell_cost k s
  notifies_all-cost s h a = omega arith

  pub sleeper_le_one : (x : Option (Worker A)) → sleeper x ≤ 1
  sleeper_le_one none = omega arith
  sleeper_le_one (some asleep) = omega arith
  sleeper_le_one (some exited) = omega arith
  sleeper_le_one (some (busy a)) = omega arith
  sleeper_le_one (some (scanning n)) = omega arith
