-- ===== src/Tests/Schedulers.antt =====
-- rr_scheduler.cpp and thread_pool.hpp with two queues.
use cmake_template.Base.{
  ℕ, ◌<◌, ◌≡◌, ◌⊎◌, refl, Bool, true, false, List, [], ◌∷◌, length, arith, some, get_elem?,
}
use cmake_template.Concurrency.Queue.{Queue, item, push}
use cmake_template.Concurrency.RrScheduler.{RrScheduler, scheduled}
use cmake_template.Concurrency.RrScheduler.Balance.{schedule_each, schedule_each-given}
use cmake_template.Concurrency.RrScheduler.Scan.{IsIdle, scheduled_misses_nothing}

-- A call that gets every lock.
abbrev all_locks : ℕ → Bool
all_locks n = true

abbrev pair : List (Queue ℕ)
pair =
    record { is_cancelled = false; container = [] }
    ∷ record { is_cancelled = false; container = 5 ∷ 6 ∷ [] }
    ∷ []

scheduled_misses_nothing_example :
    ((a : ℕ) × ((scheduled all_locks 0 pair).0 ≡ item a))
    ⊎ ((i : ℕ) → i < length pair → IsIdle pair i)
scheduled_misses_nothing_example =
    scheduled_misses_nothing all_locks (λ n. refl) 0 pair (omega arith) (omega arith)

abbrev scheduler : RrScheduler ℕ
scheduler = record { queues = pair; push_index = 3; pop_index = 2 }

schedule_each-given_example :
    get_elem? (schedule_each (4 ∷ 8 ∷ []) scheduler).queues 0
    ≡ some (record { is_cancelled = false; container = 8 ∷ [] })
unfolding push
schedule_each-given_example =
    schedule_each-given (4 ∷ 8 ∷ []) scheduler 1 (record { is_cancelled = false; container = [] })
      (omega arith) (omega arith) (omega arith) (omega arith) refl
