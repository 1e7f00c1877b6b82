-- ===== src/Concurrency/ThreadPool/Threads/Sleepers.antt =====
-- Who sleeps on which queue: worker `i` on queue `i`, and nobody else.
use cmake_template.Base.{
  ℕ, zero, suc, ◌+◌, ◌-◌, ◌%◌, ◌<◌, ◌≤◌, ◌≡◌, refl, sym, ap, ◌∙◌, List, [], ◌∷◌, ◌++◌, Option, some,
  length, get_elem?, set, length-set, length-append, length_of_get_elem?, get_elem?-set_all,
  get_elem?-replicate, arith,
}
use native.Mathlib.Nat.{mod-eq_of_lt}
use cmake_template.Concurrency.Condition.{notify_one, run_woken}
use cmake_template.Concurrency.Queue.{
  new, Reply, item, nullopt, waits, fault, pop, resume_pop, try_pop,
}
use cmake_template.Concurrency.Queue.Wakeup
use cmake_template.Concurrency.Queue.Wakeup.{System, settled, pushed}
use cmake_template.Concurrency.ThreadPool.Threads
use cmake_template.Concurrency.ThreadPool.Threads.{
  Worker, scanning, asleep, exited, busy, Call, Pool, Step, Reach, after_try, after_pop,
  after_resume,
}
use cmake_template.Concurrency.ThreadPool.Threads.Cells.{length-cells-Step}

module _ {ℓ} {A : Type ℓ} where
  -- The threads that `pop` holds: those that sleep, and those that have been woken and did not run yet.
  abbrev pub parked : System A → ℕ
  parked s = s.waiters.sleeping + s.waiters.woken

  abbrev pub sleeper : Option (Worker A) → ℕ
  sleeper (some asleep) = 1
  sleeper _ = 0

  abbrev pub Parked : List (System A) → List (Worker A) → Type ℓ
  Parked cells ws =
      (c : ℕ) (s : System A) → get_elem? cells c ≡ some s → parked s ≡ sleeper (get_elem? ws c)

  Parked-cell :
      (cells : List (System A)) (ws : List (Worker A)) (c : ℕ) (s t : System A)
      → get_elem? cells c ≡ some s
      → parked t ≡ parked s
      → Parked cells ws
      → Parked (set cells c t) ws
  Parked-cell cells ws c s t e k h =
      get_elem?-set_all (λ d u. parked u ≡ sleeper (get_elem? ws d)) cells c t h (k ∙ h c s e)

  sleeper-set :
      (ws : List (Worker A)) (i : ℕ) (x y : Worker A)
      → get_elem? ws i ≡ some x
      → sleeper (some x) ≡ sleeper (some y)
      → (c : ℕ) → sleeper (get_elem? (set ws i y) c) ≡ sleeper (get_elem? ws c)
  sleeper-set [] i x y e k c = absurd (cc e)
  sleeper-set (w ∷ ws) zero x y e k zero = let same : w ≡ x = cc in rw same (sym k)
  sleeper-set (w ∷ ws) zero x y e k (suc c) = refl
  sleeper-set (w ∷ ws) (suc i) x y e k zero = refl
  sleeper-set (w ∷ ws) (suc i) x y e k (suc c) = sleeper-set ws i x y e k c

  Parked-worker :
      (cells : List (System A)) (ws : List (Worker A)) (i : ℕ) (x y : Worker A)
      → get_elem? ws i ≡ some x
      → sleeper (some x) ≡ sleeper (some y)
      → Parked cells ws
      → Parked cells (set ws i y)
  Parked-worker cells ws i x y e k h c s f = h c s f ∙ sym (sleeper-set ws i x y e k c)

  -- The worker and its queue change together.
  Parked-both :
      (cells : List (System A)) (ws : List (Worker A)) (i : ℕ) (x y : Worker A) (t : System A)
      → get_elem? ws i ≡ some x
      → parked t ≡ sleeper (some y)
      → Parked cells ws
      → Parked (set cells i t) (set ws i y)
  Parked-both cells [] i x y t e k h c s f = absurd (cc e)
  Parked-both [] (w ∷ ws) i x y t e k h c s f = absurd (cc f)
  Parked-both (u ∷ cells) (w ∷ ws) zero x y t e k h zero s f = let same : t ≡ s = cc in rw same at k
  Parked-both (u ∷ cells) (w ∷ ws) zero x y t e k h (suc c) s f = h (suc c) s f
  Parked-both (u ∷ cells) (w ∷ ws) (suc i) x y t e k h zero s f = h 0 s f
  Parked-both (u ∷ cells) (w ∷ ws) (suc i) x y t e k h (suc c) s f =
      Parked-both cells ws i x y t e k (λ d. h (suc d)) c s f

  sleeper-enter :
      (ws : List (Worker A)) (c : ℕ)
      → sleeper (get_elem? (ws ++ (scanning 0 ∷ [])) c) ≡ sleeper (get_elem? ws c)
  sleeper-enter [] zero = refl
  sleeper-enter [] (suc c) = refl
  sleeper-enter (w ∷ ws) zero = refl
  sleeper-enter (w ∷ ws) (suc c) = sleeper-enter ws c

  -- The replies of `pop` and what they make of the waiters.
  pop-parked :
      (s : System A)
      → parked s ≡ 0
      → parked (settled s s.waiters (pop s.queue)) ≡ sleeper (some (after_pop (pop s.queue).0))
  unfolding settled
  pop-parked s e = settle_parked (pop s.queue).0
    where
      settle_parked :
          (r : Reply A)
          → parked (record s { waiters = Wakeup.settle s.waiters r }) ≡ sleeper (some (after_pop r))
      settle_parked (item a) = e
      settle_parked nullopt = e
      settle_parked waits = omega (arith, e)
      settle_parked fault = e

  resume-parked :
      (s : System A)
      → parked s ≡ 1
      → 0 < s.waiters.woken
      → parked (after_resume s) ≡ sleeper (some (after_pop (resume_pop s.queue).0))
  unfolding settled
  resume-parked s e k = settle_parked (resume_pop s.queue).0
    where
      settle_parked :
          (r : Reply A)
          → parked (record s { waiters = Wakeup.settle (run_woken s.waiters) r })
            ≡ sleeper (some (after_pop r))
      settle_parked (item a) = omega (arith, e, k)
      settle_parked nullopt = omega (arith, e, k)
      settle_parked waits = omega (arith, e, k)
      settle_parked fault = omega (arith, e, k)

  after_try-sleeper :
      (n : ℕ) (r : Reply A) → sleeper (some (scanning n)) ≡ sleeper (some (after_try n r))
  after_try-sleeper n (item a) = refl
  after_try-sleeper n nullopt = refl
  after_try-sleeper n waits = refl
  after_try-sleeper n fault = refl

module _ {ℓ} {A S : Type ℓ} (exec : A → S → S) where
  -- There are no more workers than threads, and no more threads than queues.
  abbrev pub Staffed : Pool A S → Type 0
  Staffed p = (length p.workers ≤ p.spawned) × (p.spawned ≤ length p.cells)

  Step-Staffed : {p q : Pool A S} → Step exec p q → Staffed p → Staffed q
  Step-Staffed {p} st v = staffed st (length-cells-Step exec st)
    where
      staffed : {q : Pool A S} → Step exec p q → length q.cells ≡ length p.cells → Staffed q
      staffed (Threads.spawns f k) l = omega (arith, v, k)
      staffed (Threads.spawn_fails f k) l = v
      staffed (Threads.constructs f k) l = v
      staffed (Threads.enters k) l = omega (arith, v, k, length-append p.workers (scanning 0 ∷ []))
      staffed (Threads.tries i n locked s e k f) l =
          omega (arith, v, l, length-set p.workers i (after_try n (try_pop locked s.queue).0))
      staffed (Threads.pops i s e f) l =
          omega (arith, v, l, length-set p.workers i (after_pop (pop s.queue).0))
      staffed (Threads.wakes i s e f k) l =
          omega (arith, v, l, length-set p.workers i (after_pop (resume_pop s.queue).0))
      staffed (Threads.finishes i a e) l = omega (arith, v, l, length-set p.workers i (scanning 0))
      staffed (Threads.begins a) l = v
      staffed (Threads.destroys f) l = v
      staffed _ l = omega (arith, v, l)

  pub own_queue :
      (p : Pool A S) (i : ℕ) (x : Worker A)
      → Staffed p
      → get_elem? p.workers i ≡ some x
      → i % length p.cells ≡ i
  own_queue p i x v e = mod-eq_of_lt (omega (arith, v, length_of_get_elem? p.workers i x e))

  abbrev pub Seated : Pool A S → Type ℓ
  Seated p = Parked p.cells p.workers

  notify_one-parked :
      (s : System A) (k : ℕ)
      → parked (record s { waiters = notify_one s.waiters; ones = k }) ≡ parked s
  notify_one-parked s k = ground arith

  Step-Seated : {p q : Pool A S} → Step exec p q → Staffed p → Seated p → Seated q
  unfolding pushed
  Step-Seated {p} (Threads.enters k) b v = λ c s f. v c s f ∙ sym (sleeper-enter p.workers c)
  Step-Seated {p} (Threads.tries i n locked s e k f) b v =
      Parked-worker _ p.workers i (scanning n) _ e (after_try-sleeper n _)
        (Parked-cell p.cells p.workers _ s _ f refl v)
  Step-Seated {p} (Threads.pops i s e f) b v =
      let own = own_queue p i _ b e in
      rw own (
        Parked-both p.cells p.workers i _ _ _ e (pop-parked s (v i s (rw own at f) ∙ ap sleeper e))
          v)
  Step-Seated {p} (Threads.wakes i s e f k) b v =
      let own = own_queue p i _ b e in
      rw own (
        Parked-both p.cells p.workers i _ _ _ e
          (resume-parked s (v i s (rw own at f) ∙ ap sleeper e) k) v)
  Step-Seated {p} (Threads.finishes i a e) b v =
      Parked-worker p.cells p.workers i (busy a) _ e refl v
  Step-Seated {p} (Threads.try_pushes j call locked s e k f) b v =
      Parked-cell p.cells p.workers _ s _ f refl v
  Step-Seated {p} (Threads.pushes j call s e k f) b v = Parked-cell p.cells p.workers _ s _ f refl v
  Step-Seated {p} (Threads.notifies c s e k) b v =
      Parked-cell p.cells p.workers c s _ e (notify_one-parked s (s.ones - 1)) v
  Step-Seated {p} (Threads.notifies_all c s e k) b v =
      Parked-cell p.cells p.workers c s _ e (omega arith) v
  Step-Seated {p} (Threads.wakes_spuriously c s e) b v =
      Parked-cell p.cells p.workers c s _ e (notify_one-parked s s.ones) v
  Step-Seated {p} (Threads.clears c s f e) b v = Parked-cell p.cells p.workers c s _ e refl v
  Step-Seated _ b v = v

  module _ {n : ℕ} {world : S} where
    pub Reach-Staffed : {p : Pool A S} → Reach exec n world p → Staffed p
    unfolding Threads.begin
    Reach-Staffed Threads.start = omega arith
    Reach-Staffed (Threads.later r st) = Step-Staffed st (Reach-Staffed r)

    pub Reach-Seated : {p : Pool A S} → Reach exec n world p → Seated p
    unfolding Threads.begin new
    Reach-Seated Threads.start = λ c s e. rw (get_elem?-replicate n Wakeup.idle c s e) refl
    Reach-Seated (Threads.later r st) = Step-Seated st (Reach-Staffed r) (Reach-Seated r)
