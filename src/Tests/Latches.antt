-- ===== src/Tests/Latches.antt =====
-- latch.cpp at concrete counts.
use cmake_template.Base.{
  ℕ, ◌≤◌, ◌%◌, ◌≡◌, ◌↔◌, refl, true, false, List, [], ◌∷◌, sum, size_mod, arith,
}
use cmake_template.Concurrency.Condition.{nobody}
use cmake_template.Concurrency.Latch.{new, subtract, try_wait}
use cmake_template.Concurrency.Latch.Count.{count_downs, try_wait-count_downs}
use cmake_template.Concurrency.Latch.Threads
use cmake_template.Concurrency.Latch.Threads.{
  System, Reach, start, later, init, free, IsStuck, returned_late, careful_wakes, lost_wakeup,
}

abbrev arrivals : List ℕ
arrivals = 2 ∷ 1 ∷ []

try_wait-count_downs_example :
    (try_wait (count_downs arrivals (new 3)) ≡ true) ↔ (sum arrivals % size_mod ≡ 3)
try_wait-count_downs_example =
    try_wait-count_downs 3 arrivals (omega arith) (omega arith, (omega arith, tt))

-- One `count_down(1)` on a latch of one, and then one `wait`.
abbrev waited : System
waited = record {
  latch = record { expected = 0 };
  waiters = nobody;
  holder = free;
  tests = 1;
  notifies = 0;
  arrived = 1;
  returned = 1;
}

waited-Reach : Reach true 1 waited
unfolding new subtract try_wait
waited-Reach =
    later (later start (Threads.subtracts 1 (omega arith) (λ e. cc))) (Threads.waits refl)

returned_late_example : 1 ≤ waited.arrived
returned_late_example = returned_late (omega arith) waited-Reach (omega arith)

-- One waiter sleeps, and then comes `count_down(1)`.
abbrev counted : System
counted = record {
  latch = record { expected = 0 };
  waiters = record { sleeping = 1; woken = 0 };
  holder = free;
  tests = 1;
  notifies = 0;
  arrived = 1;
  returned = 0;
}

counted-Reach : Reach true 1 counted
unfolding new subtract try_wait
counted-Reach =
    later
      (later (later (later start (Threads.waits refl)) (Threads.decides refl))
        (Threads.sleeps refl))
      (Threads.subtracts 1 (omega arith) (λ e. cc))

lost_wakeup_example : (s : System) × Reach false 2 s × IsStuck s
lost_wakeup_example = lost_wakeup 2 (omega arith) (omega arith)
