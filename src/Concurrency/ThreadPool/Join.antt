-- ===== src/Concurrency/ThreadPool/Join.antt =====
-- thread_pool.hpp: the constructor, and the end of the workers' loops that `join` waits for.
use cmake_template.Base.{
  weigh, ℕ, zero, suc, ◌+◌, ◌<◌, ◌≡◌, Bool, List, All, length, replicate, max, length-replicate,
  inl, inr, arith,
}
use cmake_template.Core.Contract.{ok, not_zero}
use cmake_template.Concurrency.Queue.{Queue, Reply, item, nullopt, waits, fault, new}
use cmake_template.Concurrency.RrScheduler.{RrScheduler, scheduled}
use cmake_template.Concurrency.RrScheduler.Weights.{weigh_queues, weigh_reply}
use cmake_template.Concurrency.RrScheduler.Tasks.{scheduled-weight, length-scheduled}
use cmake_template.Concurrency.RrScheduler.Cancel.{
  IsCancelled, IsPrompt, scheduled-All, scheduled-IsPrompt,
}
use cmake_template.Concurrency.ThreadPool.{make_pool, Worked, ended, continue, run}

-- The constructor never throws `queue_count cannot be zero`: whatever the number of threads asked
-- for, zero included, the scheduler has a queue for each thread, and at least one.
pub make_pool-ok :
    {A : Type 0} (requested : ℕ)
    → (s : RrScheduler A) × (make_pool requested ≡ ok s)
      × (length s.queues ≡ max 1 requested)
      × (0 < length s.queues)
unfolding make_pool not_zero
make_pool-ok {A} requested = (
  record { queues = replicate (max 1 requested) new; push_index = 0; pop_index = 0 },
  ground arith,
  length-replicate (max 1 requested) new,
  omega (arith, length-replicate {A = Queue A} (max 1 requested) new),
)

weigh_reply-item {ℓ} : {A : Type ℓ} {r : Reply A} (a : A) → r ≡ item a → weigh_reply (λ _. 1) r ≡ 1
weigh_reply-item a e = rw e

module _ {ℓ} {A : Type ℓ} (t : ℕ) where
  continue-ended :
      (rest : List (Queue A) → Worked A) (out : Reply A × List (Queue A))
      → IsPrompt out.0
      → ((a : A) → out.0 ≡ item a → (rest out.1).standing ≡ ended)
      → (continue t rest out).standing ≡ ended
  unfolding continue
  continue-ended rest (r, qs) (inl (a, e)) h = rw e (h a e)
  continue-ended rest (r, qs) (inr e) h = rw e

  run-ended :
      (locks : ℕ → ℕ → Bool) (fuel : ℕ) (qs : List (Queue A))
      → 0 < length qs
      → All IsCancelled qs
      → weigh_queues (λ _. 1) qs < fuel
      → (run t locks fuel qs).standing ≡ ended
  unfolding run
  run-ended locks zero qs h v k = absurd (omega arith)
  run-ended locks (suc f) qs h v k =
      continue-ended (run t locks f) (scheduled (locks f) t qs)
        (scheduled-IsPrompt (locks f) t qs h v)
        λ a e.
          run-ended locks f (scheduled (locks f) t qs).1
            (omega (arith, length-scheduled (λ _. 0) (locks f) t qs))
            (scheduled-All (locks f) t qs v)
            (omega (arith, scheduled-weight (λ _. 1) (locks f) t qs h, weigh_reply-item a e))

  continue-weight :
      (w : A → ℕ) (rest : List (Queue A) → Worked A) (out : Reply A × List (Queue A))
      → weigh w (rest out.1).executed + weigh_queues w (rest out.1).queues ≡ weigh_queues w out.1
      → weigh w (continue t rest out).executed + weigh_queues w (continue t rest out).queues
        ≡ weigh_queues w out.1 + weigh_reply w out.0
  unfolding continue
  continue-weight w rest (item a, qs) h = omega arith
  continue-weight w rest (nullopt, qs) h = omega arith
  continue-weight w rest (waits, qs) h = omega arith
  continue-weight w rest (fault, qs) h = omega arith

  run-weight :
      (w : A → ℕ) (locks : ℕ → ℕ → Bool) (fuel : ℕ) (qs : List (Queue A))
      → 0 < length qs
      → let out = run t locks fuel qs in
        weigh w out.executed + weigh_queues w out.queues ≡ weigh_queues w qs
  unfolding run
  run-weight w locks zero qs h = omega arith
  run-weight w locks (suc f) qs h =
      let (r, qs') = scheduled (locks f) t qs in
      let ih =
        run-weight w locks f (scheduled (locks f) t qs).1
          (omega (arith, length-scheduled (λ _. 0) (locks f) t qs)) in
      omega (
        arith,
        continue-weight w (run t locks f) (scheduled (locks f) t qs) ih,
        scheduled-weight w (locks f) t qs h,
      )

  -- With at least one queue and all queues cancelled, the loop of a worker that runs on its own ends
  -- within one round more than there are tasks queued, whichever locks it gets; and the tasks that
  -- it executed on the way, with those that it left, are the tasks that were queued, each as often.
  pub run_ends :
      (locks : ℕ → ℕ → Bool) (fuel : ℕ) (qs : List (Queue A))
      → 0 < length qs
      → All IsCancelled qs
      → weigh_queues (λ _. 1) qs < fuel
      → ((run t locks fuel qs).standing ≡ ended)
        × ((w : A → ℕ)
            → weigh w (run t locks fuel qs).executed + weigh_queues w (run t locks fuel qs).queues
              ≡ weigh_queues w qs)
  run_ends locks fuel qs h v k = (run-ended locks fuel qs h v k, λ w. run-weight w locks fuel qs h)
