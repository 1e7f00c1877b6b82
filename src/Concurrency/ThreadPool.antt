-- ===== src/Concurrency/ThreadPool.antt =====
-- lib_shared/inc/jar/concurrency/thread_pool.hpp over `rr_scheduler`. `Threads` interleaves the
-- threads. A task is any value; what it does to the pool while it runs are calls of `schedule`.
pub mod Join
pub mod Threads
pub mod Clients
use cmake_template.Base.{ℕ, zero, suc, Bool, List, [], ◌∷◌, max}
use cmake_template.Core.Contract.{Outcome}
use cmake_template.Concurrency.Queue.{Queue, Reply, item, nullopt, waits, fault}
use cmake_template.Concurrency.RrScheduler.{RrScheduler, make, scheduled}

abbrev pub thread_count : ℕ → ℕ
thread_count requested = max 1 requested

-- The scheduler that the constructor makes.
unfoldable pub make_pool {ℓ} : {A : Type ℓ} → (requested : ℕ) → Outcome (RrScheduler A)
unfolding make
make_pool requested = make (thread_count requested)

-- How the loop of `run` stands: it has ended, its thread sleeps in `pop`, or the rounds ran out.
pub data Standing : Type 0 where
  ended asleep unfinished : Standing

pub record Worked {ℓ} (A : Type ℓ) : Type ℓ where
  pub executed : List A
  pub queues : List (Queue A)
  pub standing : Standing

module _ {ℓ} {A : Type ℓ} (t : ℕ) where
  -- The rest of one round of the loop: a task is executed and the loop goes on with `rest`.
  continue : (List (Queue A) → Worked A) → Reply A × List (Queue A) → Worked A
  continue rest (item a, qs) =
      let more = rest qs in
      record { executed = a ∷ more.executed; queues = more.queues; standing = more.standing }
  continue rest (waits, qs) = record { executed = []; queues = qs; standing = asleep }
  continue rest (_, qs) = record { executed = []; queues = qs; standing = ended }

  -- `run` of the thread with index `t`, on its own, for at most `fuel` rounds; `locks f n` says
  -- whether the n-th `try_to_lock` succeeds when `f` rounds are left.
  unfoldable pub run : (locks : ℕ → ℕ → Bool) (fuel : ℕ) → List (Queue A) → Worked A
  unfolding continue
  run locks zero qs = record { executed = []; queues = qs; standing = unfinished }
  run locks (suc f) qs = continue (run locks f) (scheduled (locks f) t qs)
