-- ===== src/Concurrency/Latch.antt =====
-- lib_shared/inc/jar/concurrency/latch.hpp and lib_shared/src/jar/concurrency/latch.cpp: the calls
-- of one thread. `Threads` interleaves them.
pub mod Count
pub mod Threads
use cmake_template.Base.{ℕ, Bool, ◌==◌, if◌then◌else◌, sub_size}

pub record Latch : Type 0 where
  pub expected : ℕ  -- std::atomic_size_t

abbrev pub destination : ℕ
destination = 0

unfoldable pub new : ℕ → Latch
new expected = record { expected = expected }

-- `m_expected -= n` wraps.
unfoldable pub subtract : ℕ → Latch → Latch
subtract n l = record { expected = sub_size l.expected n }

-- `s_destination == m_expected`, by whichever thread reads it.
unfoldable pub try_wait : Latch → Bool
try_wait l = destination == l.expected

-- The new latch, and whether `notify_all` is called.
unfoldable pub count_down : ℕ → Latch → Latch × Bool
unfolding subtract try_wait
count_down n l = let l' = subtract n l in (l', try_wait l')

pub data Wait : Type 0 where
  returns sleeps : Wait

-- `wait` up to its first sleep: the test, and the predicate of `m_condition.wait`.
unfoldable pub wait : Latch → Wait
unfolding try_wait
wait l = if try_wait l then returns else if try_wait l then returns else sleeps

unfoldable pub arrive_and_wait : ℕ → Latch → Latch × Bool × Wait
unfolding count_down wait
arrive_and_wait n l = let (l', notified) = count_down n l in (l', notified, wait l')
