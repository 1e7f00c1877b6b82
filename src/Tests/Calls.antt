-- ===== src/Tests/Calls.antt =====
-- Calls on the pool of one thread: `schedule`, `scheduled`, and a chain of senders.
use cmake_template.Base.{
  weigh, ◌+◌, ◌==◌, ℕ, ◌≤◌, ◌≡◌, ◌⊎◌, refl, Bool, true, false, [], ◌∷◌, set, none, arith,
}
use cmake_template.Concurrency.Queue.{new, try_pop, try_push}
use cmake_template.Concurrency.Queue.Wakeup.{pushed}
use cmake_template.Concurrency.ThreadPool.Threads
use cmake_template.Concurrency.ThreadPool.Threads.{
  scanning, busy, running, Pool, Reach, begin, later, start, after_pop,
}
use cmake_template.Concurrency.ThreadPool.Threads.Accounts.{weigh_cell}
use cmake_template.Concurrency.ThreadPool.Threads.Takes.{worker_takes_task}
use cmake_template.Concurrency.ThreadPool.Threads.Costs.{steps_left}
use cmake_template.Concurrency.ThreadPool.Threads.Progress.{Run, stays, goes}
use cmake_template.Concurrency.ThreadPool.Threads.Moves.{Move}
use cmake_template.Concurrency.ThreadPool.Threads.Future.{
  World, at_first, Job, waited, exec, Answered, get-pool,
}
use cmake_template.Concurrency.Sender.{Sender}
use cmake_template.Concurrency.Sender.Denote.{Computation, Denotes}
use cmake_template.Tests.Senders.{chain, meaning, chain-Denotes}
use cmake_template.Tests.Pools.{add, cell, given, given-Reach}

-- The chain of Tests.Senders, given to the pool by two calls of `wait`.
abbrev chains : ℕ → Sender ℕ ℕ
chains i = chain

abbrev meanings : ℕ → Computation ℕ ℕ
meanings i = meaning

chains-Denote : (i : ℕ) → Denotes (chains i) (meanings i)
chains-Denote i = chain-Denotes

abbrev waiting : Pool (Job ℕ) (World ℕ ℕ)
waiting = record {
  cells =
      record {
        queue = record { is_cancelled = false; container = waited 0 ∷ waited 1 ∷ [] };
        waiters = record { sleeping = 0; woken = 0 };
        ones = 2;
        alls = 0;
      }
      ∷ [];
  push_index = 2;
  spawned = 1;
  workers = scanning 0 ∷ [];
  phase = running;
  calls = none ∷ none ∷ [];
  world = at_first 10;
  submitted = waited 0 ∷ waited 1 ∷ [];
  executed = [];
  dropped = [];
}

waiting-Reach : Reach (exec chains) 1 (at_first 10) waiting
unfolding begin new try_push pushed
waiting-Reach =
    later
      (later
        (later
          (later
            (later
              (later (later start (Threads.spawns refl (omega arith)))
                (Threads.constructs refl refl))
              (Threads.enters (omega arith)))
            (Threads.begins (waited 0)))
          (Threads.try_pushes 0 _ true _ refl (omega arith) refl))
        (Threads.begins (waited 1)))
      (Threads.try_pushes 1 _ true _ refl (omega arith) refl)

-- The thread takes the first task.
abbrev taken : Pool (Job ℕ) (World ℕ ℕ)
taken = record waiting {
  cells =
      record {
        queue = record { is_cancelled = false; container = waited 1 ∷ [] };
        waiters = record { sleeping = 0; woken = 0 };
        ones = 2;
        alls = 0;
      }
      ∷ [];
  workers = busy (waited 0) ∷ [];
}

waiting-Run : Run (exec chains) waiting 1 taken
unfolding try_pop
waiting-Run = goes stays (Threads.tries 0 0 true _ refl (omega arith) refl) refl

-- The second call's future.
get-pool_example :
    (1 ≤ steps_left 1 waiting)
    × (Move (exec chains) taken ⊎ Answered chains meanings (λ v. v) 1 10 taken)
get-pool_example =
    get-pool chains meanings chains-Denote (λ v. v) 1 (omega arith) waiting-Reach refl refl
      waiting-Run

worker_takes_task_example :
    (a : ℕ) × (m : ℕ) × (q : Pool ℕ ℕ) × Run add given m q
    × (q ≡ record given { cells = q.cells; workers = set given.workers 0 (busy a) })
    × ((w : ℕ → ℕ) → w a + weigh (weigh_cell w) q.cells ≡ weigh (weigh_cell w) given.cells)
worker_takes_task_example =
    worker_takes_task add 0 0 (cell (5 ∷ []) 0 1) given-Reach (omega arith) refl refl (λ e. cc e)

-- Only the third attempt gets its lock.
abbrev third : ℕ → Bool
third n = n == 2
