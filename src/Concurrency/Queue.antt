-- ===== src/Concurrency/Queue.antt =====
-- lib_shared/inc/jar/concurrency/queue.hpp: the blocking queue. Each operation is one critical
-- section of `m_mutex`; an operation returns the new queue beside its reply.
pub mod Fifo
pub mod Wakeup
use cmake_template.Base.{Bool, true, false, not, ◌||◌, List, [], ◌∷◌, ◌++◌, if◌then◌else◌}

-- The members of `queue<T>` that the mutex guards; the front of the deque is the head of the list.
pub record Queue {ℓ} (A : Type ℓ) : Type ℓ where
  pub is_cancelled : Bool
  pub container : List A

-- What a call answers: `item` and `nullopt` are the two values of `std::optional<T>`, `waits` says
-- that the caller sleeps on `m_condition`, and `fault` is `front()` of an empty deque.
pub data Reply {ℓ} (A : Type ℓ) : Type ℓ where
  item : A → Reply A
  nullopt waits fault : Reply A

module _ {ℓ} {A : Type ℓ} where
  abbrev pub is_empty : List A → Bool
  is_empty [] = true
  is_empty (x ∷ xs) = false

  -- `queue()`
  unfoldable pub new : Queue A
  new = record { is_cancelled = false; container = [] }

  take_front : Queue A → List A → Reply A × Queue A
  take_front q [] = (fault, q)
  take_front q (x ∷ xs) = (item x, record q { container = xs })

  -- `pop_front`, called under the lock
  unfoldable pub pop_front : Queue A → Reply A × Queue A
  unfolding take_front
  pop_front q = take_front q q.container

  -- The predicate that `pop` waits for.
  abbrev pub is_signalled : Queue A → Bool
  is_signalled q = not (is_empty q.container) || q.is_cancelled

  -- `pop` from the point where the wait is over.
  unfoldable pub finish_pop : Queue A → Reply A × Queue A
  unfolding pop_front
  finish_pop q = if q.is_cancelled then (nullopt, q) else pop_front q

  -- `m_condition.wait(lock, predicate)` and what follows: also what a woken thread runs.
  unfoldable pub resume_pop : Queue A → Reply A × Queue A
  unfolding finish_pop
  resume_pop q = if is_signalled q then finish_pop q else (waits, q)

  unfoldable pub pop : Queue A → Reply A × Queue A
  unfolding resume_pop
  pop q = if is_empty q.container || not q.is_cancelled then resume_pop q else finish_pop q

  -- `locked` says whether `std::try_to_lock` got the mutex.
  unfoldable pub try_pop : (locked : Bool) → Queue A → Reply A × Queue A
  unfolding pop_front
  try_pop locked q = if is_empty q.container || not locked then (nullopt, q) else pop_front q

  unfoldable pub push : A → Queue A → Queue A
  push a q = record q { container = q.container ++ (a ∷ []) }

  unfoldable pub try_push : (locked : Bool) → A → Queue A → Bool × Queue A
  try_push locked a q =
      if not locked then (false, q) else (true, record q { container = q.container ++ (a ∷ []) })

  unfoldable pub clear : Queue A → Queue A
  clear q = record q { is_cancelled = true; container = [] }
