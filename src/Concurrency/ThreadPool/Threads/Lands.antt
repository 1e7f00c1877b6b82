-- ===== src/Concurrency/ThreadPool/Threads/Lands.antt =====
-- Where a call of `schedule` in the pool puts its task.
use cmake_template.Base.{ℕ, ◌<◌, ◌≡◌, ◌⊎◌, Bool, true, false, add_uint}
use cmake_template.Concurrency.Queue.{Queue}

-- Attempt `j` is the first of `rounds` attempts to get its lock, at `place`; or none of them does, and
-- `place` is where the call began.
abbrev pub FirstFree : (locks : ℕ → Bool) (rounds index j place : ℕ) → Type 0
FirstFree locks rounds index j place =
    ((i : ℕ) → i < j → locks i ≡ false)
    × (((j < rounds) × (locks j ≡ true) × (place ≡ add_uint index j))
        ⊎ ((j ≡ rounds) × (place ≡ index)))
