-- ===== src/Concurrency/ThreadPool/Threads/Sequential.antt =====
-- A pool of one thread does what a loop over its tasks does.
use cmake_template.Base.{
  ℕ, suc, ◌≤◌, ◌≡◌, refl, sym, ap, ap₂, ◌∙◌, ◌⊎◌, inl, inr, false, List, [], ◌∷◌, ◌++◌, append-nil,
  Option, none, some, length, get_elem?, arith,
}
use cmake_template.Concurrency.Queue.Wakeup.{System}
use cmake_template.Concurrency.ThreadPool.Threads
use cmake_template.Concurrency.ThreadPool.Threads.{
  Worker, asleep, exited, Call, running, Pool, Step, Reach,
}
use cmake_template.Concurrency.ThreadPool.Threads.Rest.{IsQuiet, empty_cells}
use cmake_template.Concurrency.ThreadPool.Threads.Costs.{from_outside, steps_left}
use cmake_template.Concurrency.ThreadPool.Threads.Progress.{Run, stays, goes, Run-Reach}
use cmake_template.Concurrency.ThreadPool.Threads.Moves.{Move, comes_to_rest}
use cmake_template.Concurrency.ThreadPool.Threads.Liveness.{running_rests}
use cmake_template.Concurrency.ThreadPool.Threads.Always.{in_the_end}
use cmake_template.Concurrency.ThreadPool.Threads.World.{exec_all, world-Reach}
use cmake_template.Concurrency.ThreadPool.Threads.Places.{held, in_hand, queued, pending}
use cmake_template.Concurrency.ThreadPool.Threads.InTurn.{
  BeginsInTurn, InTurn, later, InTurn-Reach, executed_in_order,
}

module _ {ℓ} {A : Type ℓ} where
  idle_hands :
      (ws : List (Worker A))
      → ((i : ℕ) (x : Worker A) → get_elem? ws i ≡ some x → (x ≡ asleep) ⊎ (x ≡ exited))
      → in_hand ws ≡ []
  idle_hands [] h = refl
  idle_hands (w ∷ ws) h = ap₂ ◌++◌ (free w (h 0 w refl)) (idle_hands ws (λ i x e. h (suc i) x e))
    where
      free : (x : Worker A) → (x ≡ asleep) ⊎ (x ≡ exited) → held x ≡ []
      free x (inl e) = rw e refl
      free x (inr e) = rw e refl

  empty_queues :
      (cells : List (System A))
      → ((c : ℕ) (s : System A) → get_elem? cells c ≡ some s → s.queue.container ≡ [])
      → queued cells ≡ []
  empty_queues [] h = refl
  empty_queues (s ∷ cells) h = ap₂ ◌++◌ (h 0 s refl) (empty_queues cells (λ c t e. h (suc c) t e))

  all_returned :
      (calls : List (Option (Call A)))
      → ((j : ℕ) (x : Option (Call A)) → get_elem? calls j ≡ some x → x ≡ none)
      → pending calls ≡ []
  all_returned [] h = refl
  all_returned (none ∷ calls) h = all_returned calls (λ j x e. h (suc j) x e)
  all_returned (some call ∷ calls) h = absurd (cc (h 0 (some call) refl))

module _ {ℓ} {A S : Type ℓ} (exec : A → S → S) where
  own-BeginsInTurn :
      {p q : Pool A S} (st : Step exec p q) → from_outside st ≡ false → BeginsInTurn exec st
  own-BeginsInTurn (Threads.begins a) o = absurd (cc o)
  own-BeginsInTurn (Threads.spawns f k) o = tt
  own-BeginsInTurn _ o = tt

  module _ {world : S} where
    Run-InTurn :
        {p q : Pool A S} {m : ℕ} → InTurn exec world p → Run exec p m q → InTurn exec world q
    Run-InTurn r stays = r
    Run-InTurn r (goes run st o) = later (Run-InTurn r run) st (own-BeginsInTurn st o)

    at_rest :
        {q : Pool A S}
        → InTurn exec world q
        → IsQuiet q
        → q.phase ≡ running
        → q.executed ≡ q.submitted
    at_rest {q} r v e =
        let line = executed_in_order exec r (rw e refl) in
        let hands = idle_hands q.workers (IsQuiet.resting v) in
        let queues =
          empty_queues q.cells (λ c s f. empty_cells exec c s (InTurn-Reach exec r) v e f) in
        let calls = all_returned q.calls (IsQuiet.returned v) in
        sym (append-nil q.executed)
        ∙ ap (λ z. q.executed ++ z) (sym (ap₂ ◌++◌ hands (ap₂ ◌++◌ queues calls)))
        ∙ line

    in_order_at_rest :
        {p q : Pool A S} {m : ℕ}
        → InTurn exec world p
        → p.phase ≡ running
        → Run exec p m q
        → IsQuiet q
        → (q.executed ≡ p.submitted) × (q.world ≡ exec_all exec p.submitted world)
    in_order_at_rest r e run v =
        let (still, same) = running_rests exec run e v in
        let done = at_rest (Run-InTurn r run) v still ∙ same in
        (
          done,
          world-Reach exec (Run-Reach exec (InTurn-Reach exec r) run)
              ∙ ap (λ z. exec_all exec z world) done,
        )

    -- A pool of one thread is a loop over its tasks. From every state that a running pool of one
    -- thread reaches while each call of `schedule` begins when those before it have returned, in
    -- whatever order its thread and the call under way take their steps: they make at most `steps_left`
    -- steps, and when none of them can go on, the tasks executed are the tasks scheduled, in the same
    -- order, and the program is as executing them one after the other leaves it.
    pub world-InTurn :
        {p q : Pool A S} {m : ℕ}
        → InTurn exec world p
        → p.phase ≡ running
        → Run exec p m q
        → (m ≤ steps_left (length p.cells) p)
          × (Move exec q
              ⊎ ((q.executed ≡ p.submitted) × (q.world ≡ exec_all exec p.submitted world)))
    world-InTurn r e run =
        in_the_end exec (omega arith) (InTurn-Reach exec r) run (in_order_at_rest r e run)

    -- Such an end is reached.
    runs_in_order :
        {p : Pool A S}
        → InTurn exec world p
        → p.phase ≡ running
        → (m : ℕ) × (q : Pool A S) × Run exec p m q
          × (q.executed ≡ p.submitted)
          × (q.world ≡ exec_all exec p.submitted world)
    runs_in_order r e =
        let (m, q, run, v) = comes_to_rest exec (omega arith) (InTurn-Reach exec r) in
        let (same, world) = in_order_at_rest r e run v in (m, q, run, same, world)
