-- ===== src/Concurrency/ThreadPool/Threads/Always.antt =====
-- What becomes of the tasks and of the threads in whatever order the threads take their steps.
use cmake_template.Base.{
  ℕ, ◌<◌, ◌≤◌, ◌≡◌, ◌⊎◌, inl, inr, [], weigh, true, length, get_elem?, Option, some, none,
}
use cmake_template.Concurrency.Queue.Wakeup.{System}
use cmake_template.Concurrency.ThreadPool.Threads.{
  asleep, exited, Call, running, closing, Pool, Reach,
}
use cmake_template.Concurrency.ThreadPool.Threads.Costs.{steps_left}
use cmake_template.Concurrency.ThreadPool.Threads.Progress.{Run, Run-Reach, threads_stop}
use cmake_template.Concurrency.ThreadPool.Threads.Rest.{
  IsQuiet, all_asleep, empty_cells, join_returns,
}
use cmake_template.Concurrency.ThreadPool.Threads.Moves.{Move, rests_or_moves}
use cmake_template.Concurrency.ThreadPool.Threads.Liveness.{joins, executed_at_rest, joined_at_rest}

module _ {ℓ} {A S : Type ℓ} where
  -- Nothing is left to do in a running pool.
  pub record IsIdle (p : Pool A S) : Type ℓ where
    pub runs : p.phase ≡ running
    pub empty : (c : ℕ) (s : System A) → get_elem? p.cells c ≡ some s → s.queue.container ≡ []
    pub asleep_all : (i : ℕ) → i < length p.cells → get_elem? p.workers i ≡ some asleep
    pub returned : (j : ℕ) (x : Option (Call A)) → get_elem? p.calls j ≡ some x → x ≡ none

  -- The destructor is through.
  pub record IsJoined (p : Pool A S) : Type ℓ where
    pub closed : p.phase ≡ closing (length p.cells)
    pub exited_all : (i : ℕ) → i < p.spawned → get_elem? p.workers i ≡ some exited
    pub returned : (j : ℕ) (x : Option (Call A)) → get_elem? p.calls j ≡ some x → x ≡ none

module _ {ℓ} {A S : Type ℓ} (exec : A → S → S) where
  module _ {n : ℕ} {world : S} where
    -- What holds whenever the pool is at rest holds in the end, whatever order its steps come in.
    pub in_the_end {κ} :
        {p q : Pool A S} {m : ℕ} {P : Type κ}
        → 0 < n
        → Reach exec n world p
        → Run exec p m q
        → (IsQuiet q → P)
        → (m ≤ steps_left (length p.cells) p) × (Move exec q ⊎ P)
    in_the_end h r run f = (
      threads_stop exec r run,
      elim (rests_or_moves exec h (Run-Reach exec r run)) [ inl v ↦ inr (f v) | inr m ↦ inl m ],
    )

    -- Whatever has been scheduled gets executed. From every state that a running pool of at least one
    -- thread reaches, in whatever order its threads and the calls under way take their steps: they
    -- make at most `steps_left` steps, and when none of them can go on, the tasks executed weigh what
    -- the tasks scheduled weigh, by any weight `w` on tasks.
    pub always_executed :
        {p q : Pool A S} {m : ℕ} (w : A → ℕ)
        → 0 < n
        → Reach exec n world p
        → p.phase ≡ running
        → Run exec p m q
        → (m ≤ steps_left (length p.cells) p)
          × (Move exec q ⊎ (weigh w q.executed ≡ weigh w p.submitted))
    always_executed w h r e run = in_the_end h r run (executed_at_rest exec w r e run)

    -- The destructor ends. From every state that a pool of at least one thread reaches once its
    -- destructor has begun, in whatever order its threads, the destructor and the calls under way take
    -- their steps: they make at most `steps_left` steps, and when none of them can go on, all queues
    -- are cleared and the loop of `join` over the threads ends.
    pub always_joined :
        {p q : Pool A S} {m : ℕ} (c : ℕ)
        → 0 < n
        → Reach exec n world p
        → p.phase ≡ closing c
        → Run exec p m q
        → (m ≤ steps_left (length p.cells) p)
          × (Move exec q
              ⊎ ((q.phase ≡ closing (length q.cells)) × (joins q.spawned q.workers ≡ true)))
    always_joined c h r e run = in_the_end h r run (joined_at_rest exec c r e run)

    -- No deadlock. In every state that a pool of at least one thread reaches, one of its threads, the
    -- constructor, the destructor or a call under way can go on, or else every call of `schedule` has
    -- returned, and either the pool runs with every queue empty and every thread asleep, or its
    -- destructor has cleared all queues and every thread started has left `run`.
    pub no_deadlock :
        {p : Pool A S} → 0 < n → Reach exec n world p → Move exec p ⊎ (IsIdle p ⊎ IsJoined p)
    no_deadlock {p} h r = elim (rests_or_moves exec h r) [
      | inr m ↦ inl m
      | inl v ↦ elim (IsQuiet.settled v) [
        | inl e ↦ inr (
            inl (record {
              runs = e;
              empty = λ c s f. empty_cells exec c s r v e f;
              asleep_all = λ i k. all_asleep exec i r v e k;
              returned = IsQuiet.returned v;
            }))
        | inr e ↦ inr (
            inr (record {
              closed = e;
              exited_all = λ i k. join_returns exec (length p.cells) i r v e k;
              returned = IsQuiet.returned v;
            }))
      ]
    ]
