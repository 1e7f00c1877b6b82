-- ===== src/Concurrency/Condition.antt =====
-- `std::condition_variable` as queue.hpp, latch.cpp and future.hpp use it: how many threads sleep
-- on it, and how many have been woken and have not run yet.
use cmake_template.Base.{ℕ, ◌+◌, ◌-◌, ◌==◌, if◌then◌else◌}

pub record Waiters : Type 0 where
  pub sleeping : ℕ
  pub woken : ℕ

abbrev pub nobody : Waiters
nobody = record { sleeping = 0; woken = 0 }

abbrev pub sleep : Waiters → Waiters
sleep w = record w { sleeping = w.sleeping + 1 }

-- One sleeper wakes, by `notify_one` or spuriously; with no sleeper nothing happens.
abbrev pub notify_one : Waiters → Waiters
notify_one w =
    if w.sleeping == 0 then w else record { sleeping = w.sleeping - 1; woken = w.woken + 1 }

abbrev pub notify_all : Waiters → Waiters
notify_all w = record { sleeping = 0; woken = w.woken + w.sleeping }

-- A woken thread takes the mutex again and runs.
abbrev pub run_woken : Waiters → Waiters
run_woken w = record w { woken = w.woken - 1 }
