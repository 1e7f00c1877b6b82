-- ===== src/Concurrency/ThreadPool/Threads/Rest.antt =====
-- The pool at rest: no caller is inside `schedule`, every thread sleeps or has left `run`, and no
-- notification is on its way.
use cmake_template.Base.{
  weigh, weigh_zero, ℕ, ◌+◌, dec_lt, true, ◌<◌, ◌≡◌, ◌≢◌, refl, ap, ◌∙◌, ◌⊎◌, inl, inr, [],
  get_elem?, get_elem?-of_lt, length, length_of_get_elem?, Option, some, none, false, arith,
}
use cmake_template.Concurrency.Queue.Wakeup.{System, no_lost_wakeup}
use cmake_template.Concurrency.ThreadPool.Threads
use cmake_template.Concurrency.ThreadPool.Threads.{
  Worker, scanning, asleep, exited, busy, Call, Phase, running, closing, Pool, Step, Reach,
}
use cmake_template.Concurrency.ThreadPool.Threads.Cells.{queue-Reach}
use cmake_template.Concurrency.ThreadPool.Threads.Sleepers.{Reach-Seated, Reach-Staffed}
use cmake_template.Concurrency.ThreadPool.Threads.Phases.{
  Reach-CellsCleared, Reach-WorkersLeft, cleared,
}
use cmake_template.Concurrency.ThreadPool.Threads.Growth.{Reach-Grown}
use cmake_template.Concurrency.ThreadPool.Threads.Accounts.{
  weigh_worker, weigh_call, weigh_cell, tasks_accounted,
}

-- The constructor has returned, and the destructor, where it has begun, waits in `std::thread::join`.
abbrev pub Settled : ℕ → Phase → Type 0
Settled n phase = (phase ≡ running) ⊎ (phase ≡ closing n)

module _ {ℓ} {A S : Type ℓ} where
  pub record IsQuiet (p : Pool A S) : Type ℓ where
    pub settled : Settled (length p.cells) p.phase
    pub entered : length p.workers ≡ p.spawned
    pub resting :
        (i : ℕ) (x : Worker A) → get_elem? p.workers i ≡ some x → (x ≡ asleep) ⊎ (x ≡ exited)
    pub returned : (j : ℕ) (x : Option (Call A)) → get_elem? p.calls j ≡ some x → x ≡ none
    pub delivered :
        (c : ℕ) (s : System A)
        → get_elem? p.cells c ≡ some s
        → (s.waiters.woken ≡ 0) × (s.ones ≡ 0) × (s.alls ≡ 0)

module _ {ℓ} {A : Type ℓ} where
  resting-weight : (w : A → ℕ) (x : Worker A) → (x ≡ asleep) ⊎ (x ≡ exited) → weigh_worker w x ≡ 0
  resting-weight w x (inl e) = rw e refl
  resting-weight w x (inr e) = rw e refl

module _ {ℓ} {A S : Type ℓ} (exec : A → S → S) where
  module _ {n : ℕ} {world : S} where
    -- No worker of the pool is forgotten. In every state that a pool reaches, while worker `c` sleeps:
    -- as long as the queue on which it sleeps holds a task or has been cancelled, some thread that
    -- has been woken there has yet to run, or a caller has yet to notify there.
    pub worker_not_forgotten :
        {p : Pool A S} (c : ℕ) (s : System A)
        → Reach exec n world p
        → get_elem? p.workers c ≡ some asleep
        → get_elem? p.cells c ≡ some s
        → (s.queue.container ≢ []) ⊎ (s.queue.is_cancelled ≡ true)
        → 0 < s.waiters.woken + s.ones + s.alls
    worker_not_forgotten {p} c s r e f due =
        let held = Reach-Seated exec r c s f ∙ ap Threads.Sleepers.sleeper e in
        elim (dec_lt 0 (s.waiters.woken + s.ones + s.alls)) [
          | yes h ↦ h
          | no h ↦
              let (empty, open_still) =
                no_lost_wakeup (queue-Reach exec c s r f) (omega (arith, held, h))
                  (omega (arith, h)) (omega (arith, h)) (omega (arith, h)) in
              elim due [
                | inl full ↦ absurd (full empty)
                | inr told ↦ absurd (cc (open_still, told))
              ]
        ]

    -- The queue on which a worker sleeps is empty and not cancelled.
    asleep_on :
        {p : Pool A S} (c : ℕ) (s : System A)
        → Reach exec n world p
        → IsQuiet p
        → get_elem? p.workers c ≡ some asleep
        → get_elem? p.cells c ≡ some s
        → (s.queue.container ≡ []) × (s.queue.is_cancelled ≡ false)
    asleep_on {p} c s r v e f =
        let silent = IsQuiet.delivered v c s f in
        let held = Reach-Seated exec r c s f ∙ ap Threads.Sleepers.sleeper e in
        no_lost_wakeup (queue-Reach exec c s r f) (omega (arith, held, silent)) silent.0 silent.1
          silent.2

    -- In a running pool at rest every thread sleeps, and every queue is empty.
    pub all_asleep :
        {p : Pool A S} (i : ℕ)
        → Reach exec n world p
        → IsQuiet p
        → p.phase ≡ running
        → i < length p.cells
        → get_elem? p.workers i ≡ some asleep
    all_asleep {p} i r v e inside =
        let grown = (Reach-Grown exec r).0 e in
        let (x, g) =
          get_elem?-of_lt p.workers i (omega (arith, IsQuiet.entered v, grown, inside)) in
        elim (IsQuiet.resting v i x g) [
          | inl z ↦ g ∙ ap some z
          | inr z ↦
              let none_cleared : cleared p.phase ≡ 0 = rw e refl in
              absurd (omega (arith, Reach-WorkersLeft exec r i x g z, none_cleared))
        ]

    pub empty_cells :
        {p : Pool A S} (c : ℕ) (s : System A)
        → Reach exec n world p
        → IsQuiet p
        → p.phase ≡ running
        → get_elem? p.cells c ≡ some s
        → s.queue.container ≡ []
    empty_cells {p} c s r v e f =
        let inside = length_of_get_elem? p.cells c s f in
        (asleep_on c s r v (all_asleep c r v e inside) f).0

    -- Every task is executed, once. Whenever a pool that has not begun to close is at rest, the tasks
    -- it has executed weigh what the tasks scheduled weigh, by any weight `w` on tasks.
    pub all_executed :
        {p : Pool A S} (w : A → ℕ)
        → Reach exec n world p
        → IsQuiet p
        → p.phase ≡ running
        → weigh w p.executed ≡ weigh w p.submitted
    all_executed {p} w r v e =
        let none_cleared : cleared p.phase ≡ 0 = rw e refl in
        let kept : weigh w p.dropped ≡ 0 = rw ((Reach-Grown exec r).1 none_cleared) refl in
        omega (
          arith,
          tasks_accounted exec w r,
          kept,
          weigh_zero (weigh_worker w) p.workers
              (λ i x g. resting-weight w x (IsQuiet.resting v i x g)),
          weigh_zero (weigh_call w) p.calls (λ j x g. rw (IsQuiet.returned v j x g) refl),
          weigh_zero (weigh_cell w) p.cells (λ c s g. rw (empty_cells c s r v e g) refl),
        )

    -- `join` returns: whenever a pool that has begun to close is at rest, every thread it has
    -- started has left `run`.
    pub join_returns :
        {p : Pool A S} (c i : ℕ)
        → Reach exec n world p
        → IsQuiet p
        → p.phase ≡ closing c
        → i < p.spawned
        → get_elem? p.workers i ≡ some exited
    join_returns {p} c i r v e k =
        let (x, g) = get_elem?-of_lt p.workers i (omega (arith, IsQuiet.entered v, k)) in
        let (s, f) = get_elem?-of_lt p.cells i (omega (arith, Reach-Staffed exec r, k)) in
        elim (IsQuiet.resting v i x g) [
          | inl z ↦ absurd (awake s f (asleep_on i s r v (g ∙ ap some z) f).1)
          | inr z ↦ g ∙ ap some z
        ]
      where
        all_cleared : Settled (length p.cells) p.phase → cleared p.phase ≡ length p.cells
        all_cleared (inl z) = absurd (cc (e, z))
        all_cleared (inr z) = rw z refl

        awake : (s : System A) → get_elem? p.cells i ≡ some s → s.queue.is_cancelled ≢ false
        awake s f z =
            let inside = length_of_get_elem? p.cells i s f in
            let told = Reach-CellsCleared exec r i s f in
            ground (arith, all_cleared (IsQuiet.settled v))
