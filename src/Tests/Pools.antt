-- ===== src/Tests/Pools.antt =====
-- thread_pool.hpp with one thread, whose tasks add numbers to a counter.
use cmake_template.Base.{
  length, ℕ, ◌+◌, ◌<◌, ◌≤◌, ◌≡◌, ◌⊎◌, refl, inl, true, false, List, [], ◌∷◌, weigh, get_elem?, some,
  none, arith, get_elem?-append_all,
}
use cmake_template.Concurrency.Queue.{new, pop, try_pop, try_push, clear}
use cmake_template.Concurrency.Queue.Wakeup.{System, settled, pushed}
use cmake_template.Concurrency.ThreadPool.Threads
use cmake_template.Concurrency.ThreadPool.Threads.{
  Worker, scanning, asleep, exited, Phase, constructing, running, closing, Pool, Step, Reach, begin,
  later, start,
}
use cmake_template.Concurrency.ThreadPool.Threads.Spec.{Act, called, abstract_pool, Step-Act}
use cmake_template.Concurrency.ThreadPool.Threads.Costs.{steps_left}
use cmake_template.Concurrency.ThreadPool.Threads.Progress.{Run, stays, goes, threads_stop}
use cmake_template.Concurrency.ThreadPool.Threads.Rest.{IsQuiet, worker_not_forgotten}
use cmake_template.Concurrency.ThreadPool.Threads.Moves.{Move}
use cmake_template.Concurrency.ThreadPool.Threads.Liveness.{joins}
use cmake_template.Concurrency.ThreadPool.Threads.Always.{
  IsIdle, IsJoined, always_executed, always_joined, no_deadlock,
}
use cmake_template.Concurrency.ThreadPool.Threads.Accounts.{
  tasks_accounted, weigh_worker, weigh_call, weigh_cell,
}

abbrev pub add : ℕ → ℕ → ℕ
add a total = total + a

abbrev amount : ℕ → ℕ
amount n = n

abbrev pub cell : List ℕ → ℕ → ℕ → System ℕ
cell tasks sleeping ones = record {
  queue = record { is_cancelled = false; container = tasks };
  waiters = record { sleeping = sleeping; woken = 0 };
  ones = ones;
  alls = 0;
}

-- The thread is started and has its index; the pool is ready.
abbrev pub ready : Pool ℕ ℕ
ready = record {
  cells = cell [] 0 0 ∷ [];
  push_index = 0;
  spawned = 1;
  workers = scanning 0 ∷ [];
  phase = running;
  calls = [];
  world = 0;
  submitted = [];
  executed = [];
  dropped = [];
}

ready-Reach : Reach add 1 0 ready
unfolding begin new
ready-Reach =
    later (later (later start (Threads.spawns refl (omega arith))) (Threads.constructs refl refl))
      (Threads.enters (omega arith))

-- The task 5 is scheduled, and its caller has not notified yet.
abbrev pub given : Pool ℕ ℕ
given = record ready {
  cells = cell (5 ∷ []) 0 1 ∷ [];
  push_index = 1;
  calls = none ∷ [];
  submitted = 5 ∷ [];
}

pub given-Reach : Reach add 1 0 given
unfolding begin new try_push pushed
given-Reach =
    later (later ready-Reach (Threads.begins 5))
      (Threads.try_pushes 0 _ true _ refl (omega arith) refl)

-- The task has been executed, and the thread sleeps.
abbrev rested : Pool ℕ ℕ
rested = record given {
  cells = cell [] 1 0 ∷ [];
  workers = asleep ∷ [];
  world = 5;
  executed = 5 ∷ [];
}

rested-Reach : Reach add 1 0 rested
unfolding begin new try_pop pop settled
rested-Reach =
    later
      (later
        (later
          (later (later given-Reach (Threads.notifies 0 _ refl (omega arith)))
            (Threads.tries 0 0 true _ refl (omega arith) refl))
          (Threads.finishes 0 5 refl))
        (Threads.tries 0 0 true _ refl (omega arith) refl))
      (Threads.pops 0 _ refl refl)

-- What holds of the only element holds of each.
alone {ℓ κ} :
    {A : Type ℓ} (P : A → Type κ) (y : A)
    → P y
    → (i : ℕ) (x : A) → get_elem? (y ∷ []) i ≡ some x
    → P x
alone P y = get_elem?-append_all P [] y (λ i x e. absurd (cc e))

rested-IsQuiet : IsQuiet rested
rested-IsQuiet = record {
  settled = inl refl;
  entered = refl;
  resting = alone (λ x. (x ≡ asleep) ⊎ (x ≡ exited)) asleep (inl refl);
  returned = alone (λ x. x ≡ none) none refl;
  delivered =
      alone (λ s. (s.waiters.woken ≡ 0) × (s.ones ≡ 0) × (s.alls ≡ 0)) (cell [] 1 0)
        (refl, refl, refl);
}

-- The destructor has begun.
abbrev closes : Pool ℕ ℕ
closes = record rested { phase = closing 0 }

closes-Reach : Reach add 1 0 closes
closes-Reach = later rested-Reach (Threads.destroys refl)

given-Run : Run add given 5 rested
unfolding try_pop pop settled
given-Run =
    goes
      (goes
        (goes
          (goes (goes stays (Threads.notifies 0 _ refl (omega arith)) refl)
            (Threads.tries 0 0 true _ refl (omega arith) refl) refl)
          (Threads.finishes 0 5 refl) refl)
        (Threads.tries 0 0 true _ refl (omega arith) refl) refl)
      (Threads.pops 0 _ refl refl) refl

always_executed_example :
    (5 ≤ steps_left 1 given)
    × (Move add rested ⊎ (weigh amount rested.executed ≡ weigh amount given.submitted))
always_executed_example = always_executed add amount (omega arith) given-Reach refl given-Run

-- The destructor clears the queue.
abbrev cleared_all : Pool ℕ ℕ
cleared_all = record closes {
  phase = closing 1;
  cells =
      record {
        queue = record { is_cancelled = true; container = [] };
        waiters = record { sleeping = 1; woken = 0 };
        ones = 0;
        alls = 1;
      }
      ∷ [];
}

clears-Run : Run add closes 1 cleared_all
unfolding clear
clears-Run = goes stays (Threads.clears 0 _ refl refl) refl

always_joined_example :
    (1 ≤ steps_left 1 closes)
    × (Move add cleared_all
        ⊎ ((cleared_all.phase ≡ closing (length cleared_all.cells))
            × (joins cleared_all.spawned cleared_all.workers ≡ true)))
always_joined_example = always_joined add 0 (omega arith) closes-Reach refl clears-Run

no_deadlock_example : Move add rested ⊎ (IsIdle rested ⊎ IsJoined rested)
no_deadlock_example = no_deadlock add (omega arith) rested-Reach

threads_stop_example : 1 ≤ steps_left 1 given
threads_stop_example =
    threads_stop add given-Reach
      (goes stays (Threads.tries 0 0 false _ refl (omega arith) refl) refl)

tasks_accounted_example :
    weigh amount given.executed
      + weigh (weigh_worker amount) given.workers
      + weigh (weigh_call amount) given.calls
      + weigh (weigh_cell amount) given.cells
      + weigh amount given.dropped
    ≡ weigh amount given.submitted
tasks_accounted_example = tasks_accounted add amount given-Reach

-- The thread sleeps, and a caller has put a task into its queue but has not notified yet.
abbrev pushed_beside : Pool ℕ ℕ
pushed_beside = record rested {
  cells = cell (7 ∷ []) 1 1 ∷ [];
  push_index = 2;
  calls = none ∷ none ∷ [];
  submitted = 5 ∷ 7 ∷ [];
}

pushed_beside-Reach : Reach add 1 0 pushed_beside
unfolding try_push pushed
pushed_beside-Reach =
    later (later rested-Reach (Threads.begins 7))
      (Threads.try_pushes 1 _ true _ refl (omega arith) refl)

abbrev beside : System ℕ
beside = cell (7 ∷ []) 1 1

worker_not_forgotten_example : 0 < beside.waiters.woken + beside.ones + beside.alls
worker_not_forgotten_example =
    worker_not_forgotten add 0 beside pushed_beside-Reach refl refl (inl (λ e. cc e))

Step-Act_example : Act add (abstract_pool ready) (called 5) (
    abstract_pool (record ready {
      push_index = 1;
      calls = some (record { task = 5; index = 0; tries = 0 }) ∷ [];
      submitted = 5 ∷ [];
    }))
Step-Act_example = Step-Act add ready-Reach (Threads.begins 5)
