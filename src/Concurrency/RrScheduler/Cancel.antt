-- ===== src/Concurrency/RrScheduler/Cancel.antt =====
-- rr_scheduler.cpp: the queues after `clear`.
use cmake_template.Base.{
  ℕ, zero, suc, ◌+◌, ◌%◌, ◌<◌, ◌≡◌, refl, ap, ◌⊎◌, inl, inr, Bool, true, false, List, [], ◌∷◌, map,
  All, length, add_uint, mul_size, arith,
}
use cmake_template.Concurrency.Queue.{
  Queue, Reply, item, nullopt, waits, fault, pop, try_pop, push, try_push, clear,
}
use cmake_template.Concurrency.Queue.Fifo.{pop_cancelled}
use cmake_template.Concurrency.RrScheduler.{
  RrScheduler, next_round, scan, pop_own, scheduled, try_schedule, push_own, schedule, clear_all,
}
use cmake_template.Concurrency.RrScheduler.Access.{on_queue}
use cmake_template.Concurrency.RrScheduler.Tasks.{length-scan, length-scheduled, schedule-weight}

module _ {ℓ} {A : Type ℓ} where
  abbrev pub IsCancelled : Queue A → Type 0
  IsCancelled q = q.is_cancelled ≡ true

  on_queue-All {κ} :
      {R : Type κ} (bad : R) (f : Queue A → R × Queue A)
      → ((q : Queue A) → IsCancelled q → IsCancelled (f q).1)
      → (qs : List (Queue A)) (i : ℕ) → All IsCancelled qs
      → All IsCancelled (on_queue bad f qs i).1
  unfolding on_queue
  on_queue-All bad f h [] i v = tt
  on_queue-All bad f h (q ∷ qs) zero v = (h q v.0, v.1)
  on_queue-All bad f h (q ∷ qs) (suc i) v = (v.0, on_queue-All bad f h qs i v.1)

  try_pop-IsCancelled :
      (locked : Bool) (q : Queue A) → IsCancelled q → IsCancelled (try_pop locked q).1
  unfolding try_pop
  try_pop-IsCancelled locked q h = ground arith

  pop-IsCancelled : (q : Queue A) → IsCancelled q → IsCancelled (pop q).1
  unfolding pop
  pop-IsCancelled q h = ground arith

  try_push-IsCancelled :
      (locked : Bool) (a : A) (q : Queue A) → IsCancelled q → IsCancelled (try_push locked a q).1
  unfolding try_push
  try_push-IsCancelled locked a q h = ground arith

  next_round-All :
      (go : List (Queue A) → Reply A × List (Queue A)) (out : Reply A × List (Queue A))
      → ((qs : List (Queue A)) → All IsCancelled qs → All IsCancelled (go qs).1)
      → All IsCancelled out.1
      → All IsCancelled (next_round go out).1
  unfolding next_round
  next_round-All go (item a, qs) h v = v
  next_round-All go (nullopt, qs) h v = h qs v
  next_round-All go (waits, qs) h v = h qs v
  next_round-All go (fault, qs) h v = h qs v

  scan-All :
      (locks : ℕ → Bool) (t k n : ℕ) (qs : List (Queue A))
      → All IsCancelled qs
      → All IsCancelled (scan locks t k n qs).1
  unfolding scan
  scan-All locks t zero n qs v = v
  scan-All locks t (suc k) n qs v =
      next_round-All (scan locks t k (n + 1)) _ (scan-All locks t k (n + 1))
        (on_queue-All fault (try_pop (locks n)) (try_pop-IsCancelled (locks n)) qs _ v)

  pop_own-All :
      (t : ℕ) (out : Reply A × List (Queue A))
      → All IsCancelled out.1
      → All IsCancelled (pop_own t out).1
  unfolding pop_own
  pop_own-All t (item a, qs) v = v
  pop_own-All t (nullopt, qs) v = on_queue-All fault pop pop-IsCancelled qs _ v
  pop_own-All t (waits, qs) v = on_queue-All fault pop pop-IsCancelled qs _ v
  pop_own-All t (fault, qs) v = on_queue-All fault pop pop-IsCancelled qs _ v

  pub scheduled-All :
      (locks : ℕ → Bool) (t : ℕ) (qs : List (Queue A))
      → All IsCancelled qs
      → All IsCancelled (scheduled locks t qs).1
  unfolding scheduled
  scheduled-All locks t qs v = pop_own-All t _ (scan-All locks t (length qs) 0 qs v)

  try_schedule-All :
      (locks : ℕ → Bool) (t k n : ℕ) (a : A) (qs : List (Queue A))
      → All IsCancelled qs
      → All IsCancelled (try_schedule locks t k n a qs).1
  unfolding try_schedule
  try_schedule-All locks t zero n a qs v = v
  try_schedule-All locks t (suc k) n a qs v =
      let i = add_uint t n % length qs in
      let qs' = (on_queue false (try_push (locks n) a) qs i).1 in
      let v' =
        on_queue-All false (try_push (locks n) a) (try_push-IsCancelled (locks n) a) qs i v in
      ground (arith, v', try_schedule-All locks t k (n + 1) a qs' v')

  push-IsCancelled : (a : A) (q : Queue A) → IsCancelled q → IsCancelled (push a q)
  unfolding push
  push-IsCancelled a q h = h

  push_own-All :
      (i : ℕ) (a : A) (out : Bool × List (Queue A))
      → All IsCancelled out.1
      → All IsCancelled (push_own i a out)
  unfolding push_own
  push_own-All i a (true, qs) v = v
  push_own-All i a (false, qs) v =
      on_queue-All false (λ q. (true, push a q)) (push-IsCancelled a) qs (i % length qs) v

  pub schedule-All :
      (locks : ℕ → Bool) (a : A) (s : RrScheduler A)
      → All IsCancelled s.queues
      → All IsCancelled (schedule locks a s).queues
  unfolding schedule
  schedule-All locks a s v =
      push_own-All s.push_index a _
        (try_schedule-All locks s.push_index (mul_size (length s.queues) 4) 0 a s.queues v)

  pub clear-All : (qs : List (Queue A)) → All IsCancelled (map clear qs)
  unfolding clear
  clear-All [] = tt
  clear-All (q ∷ qs) = (refl, clear-All qs)

  pub length-clear : (qs : List (Queue A)) → length (map clear qs) ≡ length qs
  length-clear [] = refl
  length-clear (q ∷ qs) = ap suc (length-clear qs)

  pop_cancelled-at :
      (qs : List (Queue A)) (i : ℕ)
      → i < length qs
      → All IsCancelled qs
      → (on_queue fault pop qs i).0 ≡ nullopt
  unfolding on_queue
  pop_cancelled-at [] i h v = absurd (omega arith)
  pop_cancelled-at (q ∷ qs) zero h v = ap (λ (x : Reply A × Queue A). x.0) (pop_cancelled q v.0)
  pop_cancelled-at (q ∷ qs) (suc i) h v = pop_cancelled-at qs i (omega arith) v.1

  abbrev pub IsPrompt : Reply A → Type ℓ
  IsPrompt r = ((a : A) × (r ≡ item a)) ⊎ (r ≡ nullopt)

  pop_own-IsPrompt :
      (t : ℕ) (out : Reply A × List (Queue A))
      → 0 < length out.1
      → All IsCancelled out.1
      → IsPrompt (pop_own t out).0
  unfolding pop_own
  pop_own-IsPrompt t (item a, qs) h v = inl (a, refl)
  pop_own-IsPrompt t (nullopt, qs) h v = inr (pop_cancelled-at qs _ (omega arith) v)
  pop_own-IsPrompt t (waits, qs) h v = inr (pop_cancelled-at qs _ (omega arith) v)
  pop_own-IsPrompt t (fault, qs) h v = inr (pop_cancelled-at qs _ (omega arith) v)

  pub scheduled-IsPrompt :
      (locks : ℕ → Bool) (t : ℕ) (qs : List (Queue A))
      → 0 < length qs
      → All IsCancelled qs
      → IsPrompt (scheduled locks t qs).0
  unfolding scheduled
  scheduled-IsPrompt locks t qs h v =
      pop_own-IsPrompt t (scan locks t (length qs) 0 qs)
        (omega (arith, length-scan (λ _. 0) locks t (length qs) 0 qs))
        (scan-All locks t (length qs) 0 qs v)

-- Calls on a scheduler, with the outcomes of their `try_to_lock`s.
pub data Use {ℓ} (A : Type ℓ) : Type ℓ where
  schedules : (locks : ℕ → Bool) → A → Use A
  takes : (locks : ℕ → Bool) (thread_index : ℕ) → Use A

module _ {ℓ} {A : Type ℓ} where
  pub uses : List (Use A) → RrScheduler A → RrScheduler A
  uses [] s = s
  uses (schedules locks a ∷ us) s = uses us (schedule locks a s)
  uses (takes locks t ∷ us) s = uses us (record s { queues = (scheduled locks t s.queues).1 })

  uses-All :
      (us : List (Use A)) (s : RrScheduler A)
      → All IsCancelled s.queues
      → 0 < length s.queues
      → All IsCancelled (uses us s).queues × (0 < length (uses us s).queues)
  unfolding uses
  uses-All [] s v h = (v, h)
  uses-All (schedules locks a ∷ us) s v h =
      uses-All us (schedule locks a s) (schedule-All locks a s v)
        (omega (arith, (schedule-weight (λ _. 0) locks a s h).1))
  uses-All (takes locks t ∷ us) s v h =
      uses-All us _ (scheduled-All locks t s.queues v)
        (omega (arith, length-scheduled (λ _. 0) locks t s.queues))

  -- With at least one queue, every call of `scheduled` after `clear` returns: whatever has been
  -- scheduled or taken since, on whichever thread and whatever locks it gets, it hands out a task or
  -- tells the worker to stop, and never waits.
  pub scheduled-after_clear :
      (us : List (Use A)) (s : RrScheduler A) (locks : ℕ → Bool) (t : ℕ)
      → 0 < length s.queues
      → IsPrompt (scheduled locks t (uses us (clear_all s)).queues).0
  unfolding clear_all
  scheduled-after_clear us s locks t h =
      let v =
        uses-All us (record s { queues = map clear s.queues }) (clear-All s.queues)
          (omega (arith, length-clear s.queues)) in
      scheduled-IsPrompt locks t _ v.1 v.0
