-- ===== src/Tests/Queues.antt =====
-- queue.hpp at concrete histories.
use cmake_template.Base.{ℕ, ◌≡◌, refl, true, false, List, [], ◌∷◌, ◌++◌, map, arith}
use cmake_template.Concurrency.Queue.{new, pop, push, resume_pop}
use cmake_template.Concurrency.Queue.Fifo.{
  Call, pops, clears, try_pops, pushes, try_pushes, run, exited, run-order,
}
use cmake_template.Concurrency.Queue.Wakeup
use cmake_template.Concurrency.Queue.Wakeup.{
  System, Reach, start, later, no_lost_wakeup, settled, idle,
}

abbrev history : List (Call ℕ)
history =
    pushes 1
    ∷ pushes 2
    ∷ pops
    ∷ try_pushes false 9
    ∷ try_pushes true 3
    ∷ try_pops true
    ∷ clears
    ∷ pops
    ∷ []

run-order_example :
    map exited (run history new).left ++ (run history new).after.container
    ≡ [] ++ (run history new).into
unfolding new
run-order_example = run-order history new

-- Two threads sleep in `pop`; a push wakes one, which takes the item.
abbrev one_left : System ℕ
one_left = record {
  queue = record { is_cancelled = false; container = [] };
  waiters = record { sleeping = 1; woken = 0 };
  ones = 0;
  alls = 0;
}

one_left-Reach : Reach one_left
unfolding new pop settled push resume_pop
one_left-Reach =
    later
      (later (later (later (later start Wakeup.pops) Wakeup.pops) (Wakeup.pushes 5))
        (Wakeup.notifies (omega arith)))
      (Wakeup.resumes (omega arith))

no_lost_wakeup_example : (one_left.queue.container ≡ []) × (one_left.queue.is_cancelled ≡ false)
no_lost_wakeup_example = no_lost_wakeup one_left-Reach (omega arith) refl refl refl
