-- ===== src/Tests/Escapes.antt =====
-- A pool of one thread whose tasks add numbers to a counter; a task that is 5 throws.
use cmake_template.Base.{ℕ, ◌==◌, ◌≤◌, ◌⊎◌, refl, Bool, true, false, ◌≡◌, arith}
use cmake_template.Concurrency.Queue.{new, try_pop, try_push}
use cmake_template.Concurrency.Queue.Wakeup.{pushed}
use cmake_template.Concurrency.ThreadPool.Threads
use cmake_template.Concurrency.ThreadPool.Threads.{begin, Pool, Reach}
use cmake_template.Concurrency.ThreadPool.Threads.Costs.{steps_left}
use cmake_template.Concurrency.ThreadPool.Threads.Escapes.{
  alive, terminated, ProgramMove, ProgramReach, goes_on, terminates, start, later, ProgramRun,
  stays, goes, Ends, throws_end_program, stays_alive, Reach-ProgramReach,
}
use cmake_template.Tests.Pools.{add, given, given-Reach}

abbrev is_five : ℕ → Bool
is_five n = n == 5

abbrev amount : ℕ → ℕ
amount n = n

given-ProgramReach : ProgramReach add is_five 1 0 (alive given)
unfolding begin new try_push pushed
given-ProgramReach =
    later
      (later
        (later
          (later (later start (goes_on (Threads.spawns refl (omega arith)) refl))
            (goes_on (Threads.constructs refl refl) refl))
          (goes_on (Threads.enters (omega arith)) refl))
        (goes_on (Threads.begins 5) refl))
      (goes_on (Threads.try_pushes 0 _ true _ refl (omega arith) refl) refl)

given-ProgramRun : ProgramRun add is_five given 3 (terminated 5)
unfolding try_pop
given-ProgramRun =
    goes
      (goes (goes stays (goes_on (Threads.notifies 0 _ refl (omega arith)) refl) refl)
        (goes_on (Threads.tries 0 0 true _ refl (omega arith) refl) refl) refl)
      (terminates 0 5 refl refl) refl

throws_end_program_example :
    (3 ≤ steps_left 1 given)
    × (ProgramMove add is_five (terminated 5) ⊎ Ends add is_five amount given (terminated 5))
throws_end_program_example =
    throws_end_program add is_five amount (omega arith) given-ProgramReach refl given-ProgramRun

-- Where nothing throws, the theorems on the pool are about the program.
abbrev never : ℕ → Bool
never n = false

given_alive : (p : Pool ℕ ℕ) × (alive given ≡ alive p) × Reach add 1 0 p
given_alive =
    stays_alive add never (λ n. refl) (Reach-ProgramReach add never (λ n. refl) given-Reach)
