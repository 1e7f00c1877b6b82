-- ===== src/Concurrency/Latch/Count.antt =====
-- latch.cpp: when a latch opens.
use cmake_template.Base.{ℕ, ◌+◌, ◌%◌, ◌<◌, ◌≡◌, ◌↔◌, true, List, [], ◌∷◌, All, sum, arith, size_mod}
use cmake_template.Concurrency.Latch.{
  Latch, returns, new, subtract, try_wait, count_down, arrive_and_wait,
}

unfoldable pub count_downs : List ℕ → Latch → Latch
count_downs [] l = l
count_downs (n ∷ ns) l = count_downs ns (count_down n l).0

abbrev IsSize : ℕ → Type 0
IsSize n = n < size_mod

count_downs-expected :
    (ns : List ℕ) (l : Latch)
    → IsSize l.expected
    → All IsSize ns
    → ((count_downs ns l).expected + sum ns) % size_mod ≡ l.expected
unfolding count_downs count_down
count_downs-expected [] l h hs = omega arith
count_downs-expected (n ∷ ns) l h hs =
    omega (arith, count_downs-expected ns (subtract n l) (unfold subtract in omega arith) hs.1)

count_downs-IsSize :
    (ns : List ℕ) (l : Latch) → IsSize l.expected → IsSize (count_downs ns l).expected
unfolding count_downs count_down
count_downs-IsSize [] l h = h
count_downs-IsSize (n ∷ ns) l h = count_downs-IsSize ns (subtract n l) (omega arith)

-- A latch made for a `std::size_t` `n` is open after the calls `count_down(n₁)`, …,
-- `count_down(nₖ)`, in any number and with any `std::size_t` arguments, exactly when their sum is
-- `n` modulo 2 ^ 64.
pub try_wait-count_downs :
    (n : ℕ) (ns : List ℕ)
    → n < size_mod
    → All (λ k. k < size_mod) ns
    → (try_wait (count_downs ns (new n)) ≡ true) ↔ (sum ns % size_mod ≡ n)
unfolding new try_wait
try_wait-count_downs n ns h hs = (
  λ e. ground (arith, count_downs-expected ns (new n) h hs),
  λ e. ground (arith, count_downs-expected ns (new n) h hs, count_downs-IsSize ns (new n) h),
)

-- `arrive_and_wait(n)` with no other thread about: it returns at once exactly when the count is `n`,
-- and it notifies the other waiters exactly then.
pub arrive_and_wait_lem :
    (n : ℕ) (l : Latch)
    → n < size_mod
    → l.expected < size_mod
    → (((arrive_and_wait n l).2 ≡ returns) ↔ (l.expected ≡ n))
      × (((arrive_and_wait n l).1 ≡ true) ↔ (l.expected ≡ n))
unfolding arrive_and_wait subtract
arrive_and_wait_lem n l h k = ((ground arith, ground arith), (ground arith, ground arith))
