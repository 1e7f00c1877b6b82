-- ===== src/Concurrency/RrScheduler.antt =====
-- lib_shared/inc/jar/concurrency/rr_scheduler.hpp and lib_shared/src/jar/concurrency/rr_scheduler.cpp:
-- one queue for each worker; whoever finds its queue busy or empty goes round the others.
-- `locks n` says whether the n-th `try_to_lock` of a call got its mutex. The loop counters do not
-- wrap, as there are fewer than 2 ^ 30 queues.
pub mod Access
pub mod Weights
pub mod Tasks
pub mod Scan
pub mod Cancel
pub mod Balance
use cmake_template.Base.{
  ℕ, zero, suc, ◌+◌, ◌*◌, ◌%◌, Bool, true, false, List, [], ◌∷◌, map, replicate, length, add_uint,
  mul_size,
}
use cmake_template.Core.Contract.{Outcome, ok, not_zero, ◌>>=◌, ◌>>◌}
use cmake_template.Concurrency.Queue.{
  Queue, Reply, item, fault, new, pop, try_pop, push, try_push, clear,
}
use Access.{on_queue}

pub record RrScheduler {ℓ} (A : Type ℓ) : Type ℓ where
  pub queues : List (Queue A)  -- m_task_queue
  pub push_index : ℕ  -- std::atomic_uint
  pub pop_index : ℕ

module _ {ℓ} {A : Type ℓ} where
  unfoldable pub make : (queue_count : ℕ) → Outcome (RrScheduler A)
  make queue_count = do
    not_zero queue_count "queue_count cannot be zero"
    ok (record { queues = replicate queue_count new; push_index = 0; pop_index = 0 })

  -- The first call of `scheduled` by a thread fixes the `thread_index` of all its calls.
  unfoldable pub take_thread_index : RrScheduler A → ℕ × RrScheduler A
  take_thread_index s = (s.pop_index, record s { pop_index = add_uint s.pop_index 1 })

  unfoldable pub clear_all : RrScheduler A → RrScheduler A
  clear_all s = record s { queues = map clear s.queues }

  -- `if (task.has_value()) return task;`, or the rounds that are left.
  unfoldable pub next_round :
      (List (Queue A) → Reply A × List (Queue A))
      → Reply A × List (Queue A)
      → Reply A × List (Queue A)
  next_round go (item a, qs) = (item a, qs)
  next_round go (_, qs) = go qs

  -- If no queue gave a task, `pop` on the thread's own queue.
  unfoldable pub pop_own : ℕ → Reply A × List (Queue A) → Reply A × List (Queue A)
  pop_own t (item a, qs) = (item a, qs)
  pop_own t (_, qs) = on_queue fault pop qs (t % length qs)

  -- If no queue took the task, `push` on the queue of the index.
  unfoldable pub push_own : ℕ → A → Bool × List (Queue A) → List (Queue A)
  push_own i a (true, qs) = qs
  push_own i a (false, qs) = (on_queue false (λ q. (true, push a q)) qs (i % length qs)).1

module _ {ℓ} {A : Type ℓ} (locks : ℕ → Bool) where
  -- The loop of `scheduled`, with `k` rounds left: what the first queue that gives a task gives.
  unfoldable pub scan : (thread_index k n : ℕ) → List (Queue A) → Reply A × List (Queue A)
  unfolding next_round
  scan t zero n qs = (Reply.nullopt, qs)
  scan t (suc k) n qs =
      next_round (scan t k (n + 1))
        (on_queue fault (try_pop (locks n)) qs (add_uint t n % length qs))

  unfoldable pub scheduled : (thread_index : ℕ) → List (Queue A) → Reply A × List (Queue A)
  unfolding scan pop_own
  scheduled t qs = pop_own t (scan t (length qs) 0 qs)

  -- The loop of `schedule`, with `k` rounds left.
  unfoldable pub try_schedule : (index k n : ℕ) → A → List (Queue A) → Bool × List (Queue A)
  try_schedule i zero n a qs = (false, qs)
  try_schedule i (suc k) n a qs =
      let (done, qs') = on_queue false (try_push (locks n) a) qs (add_uint i n % length qs) in
      elim done [ true ↦ (true, qs') | false ↦ try_schedule i k (n + 1) a qs' ]

  unfoldable pub schedule : A → RrScheduler A → RrScheduler A
  unfolding try_schedule push_own
  schedule a s =
      let i = s.push_index in
      record s {
        queues = push_own i a (try_schedule i (mul_size (length s.queues) 4) 0 a s.queues);
        push_index = add_uint i 1;
      }
