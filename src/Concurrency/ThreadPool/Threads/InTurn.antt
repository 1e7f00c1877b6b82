-- ===== src/Concurrency/ThreadPool/Threads/InTurn.antt =====
-- A pool of one thread whose tasks are scheduled in turn: each call of `schedule` begins when those
-- before it have returned.
use cmake_template.Base.{
  ◌+◌, ◌≤◌, ◌≡◌, refl, ap, ◌∙◌, true, false, [], ◌∷◌, ◌++◌, append-nil, Option, none, some, length,
  arith,
}
use cmake_template.Concurrency.Queue.{new, pop, push, try_push}
use cmake_template.Concurrency.Queue.Wakeup.{settled, pushed}
use cmake_template.Concurrency.ThreadPool.Threads
use cmake_template.Concurrency.ThreadPool.Threads.{
  constructing, running, closing, scanning, Pool, Step, Reach, begin, after_resume, asleep, Call,
}
use cmake_template.Concurrency.ThreadPool.Threads.Cells.{length-cells}
use cmake_template.Concurrency.ThreadPool.Threads.Sleepers.{Reach-Staffed}
use cmake_template.Concurrency.ThreadPool.Threads.Phases.{cleared}
use cmake_template.Concurrency.ThreadPool.Threads.Places.{
  in_hand, queued, pending, in_order, held-pop, held-resume_pop, held-try_pop, only_pending,
  fetch-in_order, finish-in_order, enter-in_hand, pending-append, begin-in_order, deliver-in_order,
  keep-in_order,
}

module _ {ℓ} {A S : Type ℓ} (exec : A → S → S) where
  abbrev pub BeginsInTurn : {p q : Pool A S} → Step exec p q → Type ℓ
  BeginsInTurn {p} (Threads.begins a) = pending p.calls ≡ []
  BeginsInTurn _ = Unit

  -- What a pool of one thread reaches so.
  pub data InTurn (world : S) : Pool A S → Type ℓ where
    start : InTurn world (begin exec 1 world)
    later :
        {p q : Pool A S} → InTurn world p → (st : Step exec p q) → BeginsInTurn st → InTurn world q

  pub InTurn-Reach : {world : S} {p : Pool A S} → InTurn world p → Reach exec 1 world p
  InTurn-Reach start = Threads.start
  InTurn-Reach (later r st b) = Threads.later (InTurn-Reach r) st

  -- At most one call is under way; and the tasks stand in order, until `clear` drops some.
  abbrev Queueing : Pool A S → Type ℓ
  Queueing p =
      (length (pending p.calls) ≤ 1)
      × (cleared p.phase ≡ 0 → in_order p.executed p.workers p.cells p.calls ≡ p.submitted)

  Step-Queueing :
      {p q : Pool A S} (st : Step exec p q)
      → BeginsInTurn st
      → length p.workers ≤ 1
      → length p.cells ≤ 1
      → Queueing p
      → Queueing q
  unfolding settled pushed try_push push
  Step-Queueing (Threads.spawns f k) b w o v = v
  Step-Queueing (Threads.spawn_fails f k) b w o v = (v.0, λ _. v.1 (rw f refl))
  Step-Queueing (Threads.constructs f k) b w o v = (v.0, λ _. v.1 (rw f refl))
  Step-Queueing {p} (Threads.enters k) b w o v = (v.0, λ z. rw (enter-in_hand p.workers) (v.1 z))
  Step-Queueing {p} (Threads.tries i n locked s e k f) b w o v =
      let same =
        fetch-in_order p.executed p.workers p.cells p.calls _ i s _ (scanning n) _ w o f e refl
          (held-try_pop n locked s.queue) in
      (v.0, λ z. same ∙ v.1 z)
  Step-Queueing {p} (Threads.pops i s e f) b w o v =
      let same =
        fetch-in_order p.executed p.workers p.cells p.calls _ i s
          (settled s s.waiters (pop s.queue)) (scanning (length p.cells)) _ w o f e refl
          (held-pop s.queue) in
      (v.0, λ z. same ∙ v.1 z)
  Step-Queueing {p} (Threads.wakes i s e f k) b w o v =
      let same =
        fetch-in_order p.executed p.workers p.cells p.calls _ i s (after_resume s) asleep _ w o f e
          refl (held-resume_pop s.queue) in
      (v.0, λ z. same ∙ v.1 z)
  Step-Queueing {p} (Threads.finishes i a e) b w o v =
      (v.0, λ z. finish-in_order p.executed p.workers p.cells p.calls i a w e ∙ v.1 z)
  Step-Queueing {p} (Threads.begins a) b w o v =
      let new : Call A = record { task = a; index = p.push_index; tries = 0 } in
      let one : pending (p.calls ++ (some new ∷ [])) ≡ a ∷ [] =
        pending-append p.calls new ∙ ap (λ z. z ++ (a ∷ [])) b in
      (
        rw one (omega arith),
        λ z.
            begin-in_order p.executed p.workers p.cells p.calls new
            ∙ ap (λ l. l ++ (a ∷ [])) (v.1 z),
      )
  Step-Queueing {p} (Threads.try_pushes j call true s e k f) b w o v =
      let y = (only_pending p.calls j call none v.0 e).1 in
      (
        rw y (omega arith),
        λ z.
            deliver-in_order p.executed p.workers p.cells p.calls _ j s _ call none o v.0 f e
              (append-nil _)
            ∙ v.1 z,
      )
  Step-Queueing {p} (Threads.try_pushes j call false s e k f) b w o v =
      let next : Option (Call A) = some (record call { tries = call.tries + 1 }) in
      let y = (only_pending p.calls j call next v.0 e).1 in
      (
        rw y (omega arith),
        λ z.
            deliver-in_order p.executed p.workers p.cells p.calls _ j s _ call next o v.0 f e refl
            ∙ v.1 z,
      )
  Step-Queueing {p} (Threads.pushes j call s e k f) b w o v =
      let y = (only_pending p.calls j call none v.0 e).1 in
      (
        rw y (omega arith),
        λ z.
            deliver-in_order p.executed p.workers p.cells p.calls _ j s _ call none o v.0 f e
              (append-nil _)
            ∙ v.1 z,
      )
  Step-Queueing {p} (Threads.notifies c s e k) b w o v =
      (v.0, λ z. keep-in_order p.executed p.workers p.cells p.calls c s _ e refl ∙ v.1 z)
  Step-Queueing {p} (Threads.notifies_all c s e k) b w o v =
      (v.0, λ z. keep-in_order p.executed p.workers p.cells p.calls c s _ e refl ∙ v.1 z)
  Step-Queueing {p} (Threads.wakes_spuriously c s e) b w o v =
      (v.0, λ z. keep-in_order p.executed p.workers p.cells p.calls c s _ e refl ∙ v.1 z)
  Step-Queueing (Threads.destroys f) b w o v = (v.0, λ _. v.1 (rw f refl))
  Step-Queueing (Threads.clears c s f e) b w o v = (v.0, λ z. absurd (omega arith))

  module _ {world : S} where
    InTurn-Queueing : {p : Pool A S} → InTurn world p → Queueing p
    unfolding begin new
    InTurn-Queueing start = (omega arith, λ _. refl)
    InTurn-Queueing (later {p} r st b) =
        let reached = InTurn-Reach r in
        let staffed = Reach-Staffed exec reached in
        let one = length-cells exec reached in
        Step-Queueing st b (omega (arith, staffed, one)) (omega (arith, one)) (InTurn-Queueing r)

    -- One thread executes in the order of submission. In every state that a pool of one thread reaches
    -- while each call of `schedule` begins when those before it have returned, until the destructor
    -- clears the queue: the tasks executed, then the one in execution, then those in the queue, then
    -- the one in a call under way, are the tasks scheduled, in the order in which they were.
    pub executed_in_order :
        {p : Pool A S}
        → InTurn world p
        → cleared p.phase ≡ 0
        → p.executed ++ (in_hand p.workers ++ (queued p.cells ++ pending p.calls)) ≡ p.submitted
    executed_in_order r = (InTurn-Queueing r).1
