-- ===== src/Tests/Sequences.antt =====
-- Two tasks in turn on the pool of one thread.
use cmake_template.Base.{ℕ, ◌+◌, ◌*◌, ◌≤◌, ◌≡◌, ◌⊎◌, refl, true, [], ◌∷◌, ◌++◌, none, arith}
use cmake_template.Concurrency.Queue.{new, pop, try_pop, try_push}
use cmake_template.Concurrency.Queue.Wakeup.{settled, pushed}
use cmake_template.Concurrency.ThreadPool.Threads
use cmake_template.Concurrency.ThreadPool.Threads.{asleep, Pool, begin}
use cmake_template.Concurrency.ThreadPool.Threads.Costs.{steps_left}
use cmake_template.Concurrency.ThreadPool.Threads.Progress.{Run, stays, goes}
use cmake_template.Concurrency.ThreadPool.Threads.Moves.{Move}
use cmake_template.Concurrency.ThreadPool.Threads.Places.{in_hand, queued, pending}
use cmake_template.Concurrency.ThreadPool.Threads.World.{exec_all}
use cmake_template.Concurrency.ThreadPool.Threads.InTurn.{InTurn, start, later, executed_in_order}
use cmake_template.Concurrency.ThreadPool.Threads.Sequential.{world-InTurn}
use cmake_template.Tests.Pools.{ready, given, cell}

-- What a task does depends on those before it.
abbrev digit : ℕ → ℕ → ℕ
digit a total = total * 10 + a

-- The tasks 5 and 7 are scheduled, and their callers have not notified yet.
abbrev both : Pool ℕ ℕ
both = record given {
  cells = cell (5 ∷ 7 ∷ []) 0 2 ∷ [];
  push_index = 2;
  calls = none ∷ none ∷ [];
  submitted = 5 ∷ 7 ∷ [];
}

ready-InTurn : InTurn digit 0 ready
unfolding begin new
ready-InTurn =
    later
      (later (later start (Threads.spawns refl (omega arith)) tt) (Threads.constructs refl refl) tt)
      (Threads.enters (omega arith)) tt

both-InTurn : InTurn digit 0 both
unfolding begin new try_push pushed
both-InTurn =
    later
      (later
        (later (later ready-InTurn (Threads.begins 5) refl)
          (Threads.try_pushes 0 _ true _ refl (omega arith) refl) tt)
        (Threads.begins 7) refl)
      (Threads.try_pushes 1 _ true _ refl (omega arith) refl) tt

executed_in_order_example :
    both.executed ++ (in_hand both.workers ++ (queued both.cells ++ pending both.calls))
    ≡ both.submitted
executed_in_order_example = executed_in_order digit both-InTurn refl

-- Both have been executed, and the thread sleeps.
abbrev both_done : Pool ℕ ℕ
both_done = record both {
  cells = cell [] 1 0 ∷ [];
  workers = asleep ∷ [];
  world = 57;
  executed = 5 ∷ 7 ∷ [];
}

both-Run : Run digit both 8 both_done
unfolding try_pop pop settled
both-Run =
    goes
      (goes
        (goes
          (goes
            (goes
              (goes
                (goes (goes stays (Threads.notifies 0 _ refl (omega arith)) refl)
                  (Threads.notifies 0 _ refl (omega arith)) refl)
                (Threads.tries 0 0 true _ refl (omega arith) refl) refl)
              (Threads.finishes 0 5 refl) refl)
            (Threads.tries 0 0 true _ refl (omega arith) refl) refl)
          (Threads.finishes 0 7 refl) refl)
        (Threads.tries 0 0 true _ refl (omega arith) refl) refl)
      (Threads.pops 0 _ refl refl) refl

world-InTurn_example :
    (8 ≤ steps_left 1 both)
    × (Move digit both_done
        ⊎ ((both_done.executed ≡ both.submitted)
            × (both_done.world ≡ exec_all digit both.submitted 0)))
world-InTurn_example = world-InTurn digit both-InTurn refl both-Run

-- In that order the digits make 57.
exec_all_digits : exec_all digit (5 ∷ 7 ∷ []) 0 ≡ 57
exec_all_digits = refl
