-- ===== src/Concurrency/ThreadPool/Threads/Progress.antt =====
-- The threads of the pool run down: left alone, they make a bounded number of steps.
use cmake_template.Base.{
  weigh-append, weigh-set, ℕ, ◌+◌, ◌-◌, ◌<◌, ◌≤◌, ◌≡◌, refl, ◌∙◌, false, [], ◌∷◌, get_elem?, set,
  length, length-append, length-set, length_of_get_elem?, Option, some, none, arith,
}
use cmake_template.Concurrency.Queue.{clear}
use cmake_template.Concurrency.Queue.Wakeup.{System}
use cmake_template.Concurrency.ThreadPool.Threads
use cmake_template.Concurrency.ThreadPool.Threads.{
  Worker, scanning, asleep, exited, busy, Call, Phase, constructing, running, closing, Pool, Step,
  Reach, after_try, after_pop, after_resume, after_push,
}
use cmake_template.Concurrency.ThreadPool.Threads.Cells.{length-cells-Step}
use cmake_template.Concurrency.ThreadPool.Threads.Sleepers.{
  Staffed, Seated, Reach-Staffed, Reach-Seated,
}
use cmake_template.Concurrency.ThreadPool.Threads.Costs.{
  from_outside, worker_cost, call_cost, cell_cost, steps_left, times_ahead, tries-cost, pops-cost,
  wakes-cost, try_pushes-cost, pushes-cost, notifies-cost, notifies_all-cost, sleeper_le_one,
}

module _ {ℓ} {A S : Type ℓ} where
  -- A worker and a queue change together.
  fetch-steps_left :
      (k : ℕ) (p : Pool A S) (c i : ℕ) (s t : System A) (x y : Worker A)
      → get_elem? p.cells c ≡ some s
      → get_elem? p.workers i ≡ some x
      → cell_cost k t + worker_cost k y < cell_cost k s + worker_cost k x
      → steps_left k (record p { cells = set p.cells c t; workers = set p.workers i y })
        < steps_left k p
  unfolding steps_left
  fetch-steps_left k p c i s t x y e f h = rw (length-set p.workers i y) (
      omega (
        arith,
        h,
        weigh-set (cell_cost k) p.cells c s t e,
        weigh-set (worker_cost k) p.workers i x y f,
      ))

  deliver-steps_left :
      (k : ℕ) (p : Pool A S) (c j : ℕ) (s t : System A) (x y : Option (Call A))
      → get_elem? p.cells c ≡ some s
      → get_elem? p.calls j ≡ some x
      → cell_cost k t + call_cost k y < cell_cost k s + call_cost k x
      → steps_left k (record p { cells = set p.cells c t; calls = set p.calls j y })
        < steps_left k p
  unfolding steps_left
  deliver-steps_left k p c j s t x y e f h =
      omega
        (arith, h, weigh-set (cell_cost k) p.cells c s t e, weigh-set (call_cost k) p.calls j x y f)

  notify-steps_left :
      (k : ℕ) (p : Pool A S) (c : ℕ) (s t : System A)
      → get_elem? p.cells c ≡ some s
      → cell_cost k t < cell_cost k s
      → steps_left k (record p { cells = set p.cells c t }) < steps_left k p
  unfolding steps_left
  notify-steps_left k p c s t e h = omega (arith, h, weigh-set (cell_cost k) p.cells c s t e)

module _ {ℓ} {A S : Type ℓ} {exec : A → S → S} where
  Step-steps_left :
      {p q : Pool A S} (st : Step exec p q)
      → Staffed exec p
      → Seated exec p
      → from_outside st ≡ false
      → steps_left (length p.cells) q < steps_left (length p.cells) p
  unfolding steps_left clear
  Step-steps_left {p} (Threads.spawns f k) b v o =
      let ahead = times_ahead (length p.cells) p.spawned (length p.cells + 3) k in
      let behind =
        times_ahead (p.spawned + 1) (length p.workers) (length p.cells + 2) (omega (arith, b)) in
      let same : p.spawned + 1 - (length p.workers + 1) ≡ p.spawned - length p.workers =
        omega arith in
      rw f (omega (arith, ahead, rw same at behind))
  Step-steps_left {p} (Threads.spawn_fails f k) b v o = rw f (omega arith)
  Step-steps_left {p} (Threads.constructs f k) b v o = rw f (omega arith)
  Step-steps_left {p} (Threads.enters k) b v o =
      let behind = times_ahead p.spawned (length p.workers) (length p.cells + 2) k in
      rw (length-append p.workers (scanning 0 ∷ [])) (
        omega
          (arith, behind, weigh-append (worker_cost (length p.cells)) p.workers (scanning 0 ∷ [])))
  Step-steps_left {p} (Threads.tries i n locked s e k f) b v o =
      fetch-steps_left (length p.cells) p _ i s _ (scanning n) _ f e
        (tries-cost (length p.cells) locked n s k)
  Step-steps_left {p} (Threads.pops i s e f) b v o =
      fetch-steps_left (length p.cells) p _ i s _ (scanning (length p.cells)) _ f e
        (pops-cost (length p.cells) s)
  Step-steps_left {p} (Threads.wakes i s e f k) b v o =
      fetch-steps_left (length p.cells) p _ i s _ asleep _ f e (wakes-cost (length p.cells) s k)
  Step-steps_left {p} (Threads.finishes i a e) b v o =
      rw (length-set p.workers i (scanning 0)) (
        omega (arith, weigh-set (worker_cost (length p.cells)) p.workers i (busy a) (scanning 0) e))
  Step-steps_left (Threads.begins a) b v o = absurd (cc o)
  Step-steps_left {p} (Threads.try_pushes j call locked s e k f) b v o =
      deliver-steps_left (length p.cells) p _ j s _ (some call) _ f e
        (try_pushes-cost (length p.cells) call locked s k)
  Step-steps_left {p} (Threads.pushes j call s e k f) b v o =
      deliver-steps_left (length p.cells) p _ j s _ (some call) none f e
        (omega (arith, pushes-cost (length p.cells) call s))
  Step-steps_left {p} (Threads.notifies c s e k) b v o =
      notify-steps_left (length p.cells) p c s _ e (notifies-cost (length p.cells) s k)
  Step-steps_left {p} (Threads.notifies_all c s e k) b v o =
      notify-steps_left (length p.cells) p c s _ e (
        notifies_all-cost (length p.cells) s
          (omega (arith, v c s e, sleeper_le_one (length p.cells) (get_elem? p.workers c))) k)
  Step-steps_left (Threads.wakes_spuriously c s e) b v o = absurd (cc o)
  Step-steps_left (Threads.destroys f) b v o = absurd (cc o)
  Step-steps_left {p} (Threads.clears c s f e) b v o =
      let inside = length_of_get_elem? p.cells c s e in
      rw f (
        omega (
          arith,
          inside,
          weigh-set (cell_cost (length p.cells)) p.cells c s
              (record s { queue = clear s.queue; alls = s.alls + 1 }) e,
        ))

module _ {ℓ} {A S : Type ℓ} (exec : A → S → S) where
  -- A run of the pool's own threads and of the calls under way, of a number of steps.
  pub data Run (p : Pool A S) : ℕ → Pool A S → Type ℓ where
    stays : Run p 0 p
    goes :
        {m : ℕ} {q r : Pool A S}
        → Run p m q
        → (st : Step exec q r) → from_outside st ≡ false
        → Run p (m + 1) r

  pub length-cells-Run : {p q : Pool A S} {m : ℕ} → Run p m q → length q.cells ≡ length p.cells
  length-cells-Run stays = refl
  length-cells-Run (goes run st o) = length-cells-Step exec st ∙ length-cells-Run run

  module _ {n : ℕ} {world : S} where
    pub Run-Reach :
        {p q : Pool A S} {m : ℕ} → Reach exec n world p → Run p m q → Reach exec n world q
    Run-Reach r stays = r
    Run-Reach r (goes run st o) = Threads.later (Run-Reach r run) st

    pub Run-steps_left :
        {p q : Pool A S} {m : ℕ}
        → Reach exec n world p
        → Run p m q
        → m + steps_left (length p.cells) q ≤ steps_left (length p.cells) p
    Run-steps_left r stays = omega arith
    Run-steps_left {p} r (goes {q = q} {r = t} run st o) =
        let before = Run-Reach r run in
        let down = Step-steps_left st (Reach-Staffed exec before) (Reach-Seated exec before) o in
        let same = length-cells-Run run in omega (arith, Run-steps_left r run, rw same at down)

    -- The threads of a pool stop. From every reachable state, the threads of the pool and the calls
    -- under way make at most `steps_left` steps, in any order, while no further call begins, the
    -- destructor does not begin and no thread wakes spuriously.
    pub threads_stop :
        {p q : Pool A S} {m : ℕ}
        → Reach exec n world p
        → Run p m q
        → m ≤ steps_left (length p.cells) p
    threads_stop r run = omega (arith, Run-steps_left r run)
