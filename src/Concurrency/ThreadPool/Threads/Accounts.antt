-- ===== src/Concurrency/ThreadPool/Threads/Accounts.antt =====
-- Where the tasks of the pool are: with a caller, queued, with a worker, executed, or destroyed.
use cmake_template.Base.{
  weigh, weigh-append, weigh-set, ℕ, zero, suc, ◌+◌, ◌≡◌, refl, Bool, true, false, [], ◌∷◌,
  get_elem?, set, replicate, length, Option, some, none, arith,
}
use cmake_template.Concurrency.Queue.{
  Reply, item, nullopt, waits, fault, new, pop, try_pop, resume_pop, push, try_push, clear,
}
use cmake_template.Concurrency.Queue.Wakeup
use cmake_template.Concurrency.Queue.Wakeup.{System, settled, pushed}
use cmake_template.Concurrency.RrScheduler.Weights.{
  weigh_reply, pop-weight-at, try_pop-weight-at, resume_pop-weight-at, left_over,
  try_push-weight-at,
}
use cmake_template.Concurrency.ThreadPool.Threads
use cmake_template.Concurrency.ThreadPool.Threads.{
  Worker, scanning, busy, Call, Pool, Step, Reach, after_try, after_pop, after_resume, after_push,
}

module _ {ℓ} {A : Type ℓ} (w : A → ℕ) where
  abbrev pub weigh_worker : Worker A → ℕ
  weigh_worker (busy a) = w a
  weigh_worker _ = 0

  abbrev pub weigh_call : Option (Call A) → ℕ
  weigh_call none = 0
  weigh_call (some call) = w call.task

  abbrev pub weigh_cell : System A → ℕ
  weigh_cell s = weigh w s.queue.container

  after_pop-weight : (r : Reply A) → weigh_worker (after_pop r) ≡ weigh_reply w r
  after_pop-weight (item a) = refl
  after_pop-weight nullopt = refl
  after_pop-weight waits = refl
  after_pop-weight fault = refl

  after_try-weight : (n : ℕ) (r : Reply A) → weigh_worker (after_try n r) ≡ weigh_reply w r
  after_try-weight n (item a) = refl
  after_try-weight n nullopt = refl
  after_try-weight n waits = refl
  after_try-weight n fault = refl

  after_push-weight :
      (call : Call A) (done : Bool) → weigh_call (after_push call done) ≡ left_over w call.task done
  after_push-weight call true = refl
  after_push-weight call false = refl

  idle-weight : (n : ℕ) → weigh weigh_cell (replicate n Wakeup.idle) ≡ 0
  unfolding new
  idle-weight zero = refl
  idle-weight (suc n) = omega (arith, idle-weight n)

module _ {ℓ} {A S : Type ℓ} (exec : A → S → S) (w : A → ℕ) where
  abbrev Balanced : Pool A S → Type 0
  Balanced p =
      weigh w p.executed
        + weigh (weigh_worker w) p.workers
        + weigh (weigh_call w) p.calls
        + weigh (weigh_cell w) p.cells
        + weigh w p.dropped
      ≡ weigh w p.submitted

  -- A worker takes from a queue what its answer carries.
  fetch-Balanced :
      (p : Pool A S) (c i : ℕ) (s t : System A) (x y : Worker A) (r : Reply A)
      → get_elem? p.cells c ≡ some s
      → get_elem? p.workers i ≡ some x
      → weigh_worker w x ≡ 0
      → weigh_worker w y ≡ weigh_reply w r
      → weigh_cell w t + weigh_reply w r ≡ weigh_cell w s
      → Balanced p
      → Balanced (record p { cells = set p.cells c t; workers = set p.workers i y })
  fetch-Balanced p c i s t x y r e f z k m v = omega (
    arith,
    weigh-set (weigh_cell w) p.cells c s t e,
    weigh-set (weigh_worker w) p.workers i x y f,
  )

  -- A caller brings into a queue what it no longer carries.
  deliver-Balanced :
      (p : Pool A S) (c j : ℕ) (s t : System A) (x y : Option (Call A))
      → get_elem? p.cells c ≡ some s
      → get_elem? p.calls j ≡ some x
      → weigh_cell w t + weigh_call w y ≡ weigh_cell w s + weigh_call w x
      → Balanced p
      → Balanced (record p { cells = set p.cells c t; calls = set p.calls j y })
  deliver-Balanced p c j s t x y e f k v =
      omega
        (arith, weigh-set (weigh_cell w) p.cells c s t e, weigh-set (weigh_call w) p.calls j x y f)

  same-Balanced :
      (p : Pool A S) (c : ℕ) (s t : System A)
      → get_elem? p.cells c ≡ some s
      → t.queue ≡ s.queue
      → Balanced p
      → Balanced (record p { cells = set p.cells c t })
  same-Balanced p c s t e k v =
      let same : weigh_cell w t ≡ weigh_cell w s = rw k refl in
      omega (arith, weigh-set (weigh_cell w) p.cells c s t e, same)

  Step-Balanced : {p q : Pool A S} → Step exec p q → Balanced p → Balanced q
  unfolding settled pushed push clear
  Step-Balanced (Threads.spawns f k) v = v
  Step-Balanced (Threads.spawn_fails f k) v = v
  Step-Balanced (Threads.constructs f k) v = v
  Step-Balanced {p} (Threads.enters k) v =
      omega (arith, weigh-append (weigh_worker w) p.workers (scanning 0 ∷ []))
  Step-Balanced {p} (Threads.tries i n locked s e k f) v =
      let r = (try_pop locked s.queue).0 in
      fetch-Balanced p _ i s (Threads.after_try_pop locked s) (scanning n) (after_try n r) r f e
        refl (after_try-weight w n r)
        (try_pop-weight-at w locked s.queue.is_cancelled s.queue.container) v
  Step-Balanced {p} (Threads.pops i s e f) v =
      let r = (pop s.queue).0 in
      fetch-Balanced p _ i s (settled s s.waiters (pop s.queue)) (scanning (length p.cells))
        (after_pop r) r f e refl (after_pop-weight w r)
        (pop-weight-at w s.queue.is_cancelled s.queue.container) v
  Step-Balanced {p} (Threads.wakes i s e f k) v =
      let r = (resume_pop s.queue).0 in
      fetch-Balanced p _ i s (after_resume s) Threads.asleep (after_pop r) r f e refl
        (after_pop-weight w r) (resume_pop-weight-at w s.queue.is_cancelled s.queue.container) v
  Step-Balanced {p} (Threads.finishes i a e) v = omega (
    arith,
    weigh-set (weigh_worker w) p.workers i (busy a) (scanning 0) e,
    weigh-append w p.executed (a ∷ []),
  )
  Step-Balanced {p} (Threads.begins a) v = omega (
    arith,
    weigh-append w p.submitted (a ∷ []),
    weigh-append (weigh_call w) p.calls
        (some (record { task = a; index = p.push_index; tries = 0 }) ∷ []),
  )
  Step-Balanced {p} (Threads.try_pushes j call locked s e k f) v =
      let done = (try_push locked call.task s.queue).0 in
      deliver-Balanced p _ j s (pushed s (try_push locked call.task s.queue)) (some call)
        (after_push call done) f e
        (omega
          (arith, try_push-weight-at w locked call.task s.queue, after_push-weight w call done))
        v
  Step-Balanced {p} (Threads.pushes j call s e k f) v =
      deliver-Balanced p _ j s (record s { queue = push call.task s.queue; ones = s.ones + 1 })
        (some call) none f e (omega (arith, weigh-append w s.queue.container (call.task ∷ []))) v
  Step-Balanced {p} (Threads.notifies c s e k) v = same-Balanced p c s _ e refl v
  Step-Balanced {p} (Threads.notifies_all c s e k) v = same-Balanced p c s _ e refl v
  Step-Balanced {p} (Threads.wakes_spuriously c s e) v = same-Balanced p c s _ e refl v
  Step-Balanced (Threads.destroys f) v = v
  Step-Balanced {p} (Threads.clears c s f e) v = omega (
    arith,
    weigh-set (weigh_cell w) p.cells c s (record s { queue = clear s.queue; alls = s.alls + 1 }) e,
    weigh-append w p.dropped s.queue.container,
  )

  -- Every task is accounted for, once. In every state of a pool, however the attempts of its
  -- callers, of its workers and of `clear` interleave and whichever locks are found taken: the tasks
  -- executed, in execution, not yet queued, queued and destroyed by `clear` weigh what the tasks
  -- scheduled weigh, by any weight `w` on tasks.
  pub tasks_accounted :
      {n : ℕ} {world : S} {p : Pool A S}
      → Reach exec n world p
      → weigh w p.executed
          + weigh (weigh_worker w) p.workers
          + weigh (weigh_call w) p.calls
          + weigh (weigh_cell w) p.cells
          + weigh w p.dropped
        ≡ weigh w p.submitted
  unfolding Threads.begin
  tasks_accounted {n} Threads.start = omega (arith, idle-weight w n)
  tasks_accounted (Threads.later r st) = Step-Balanced st (tasks_accounted r)
