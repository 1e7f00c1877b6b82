-- ===== src/Concurrency/ThreadPool/Threads/Growth.antt =====
-- When the pool runs, it has all its threads, and until the destructor clears a queue no task is dropped.
use cmake_template.Base.{ℕ, ◌≡◌, refl, sym, ◌∙◌, [], length, arith}
use cmake_template.Concurrency.ThreadPool.Threads
use cmake_template.Concurrency.ThreadPool.Threads.{running, Pool, Step, Reach}
use cmake_template.Concurrency.ThreadPool.Threads.Cells.{length-cells-Step}
use cmake_template.Concurrency.ThreadPool.Threads.Phases.{cleared}

module _ {ℓ} {A S : Type ℓ} (exec : A → S → S) where
  -- The pool runs once all its threads are started; only `clear` drops tasks.
  abbrev pub Grown : Pool A S → Type ℓ
  Grown p =
      (p.phase ≡ running → p.spawned ≡ length p.cells) × (cleared p.phase ≡ 0 → p.dropped ≡ [])

  Step-Grown : {p q : Pool A S} → Step exec p q → Grown p → Grown q
  Step-Grown {p} st v = grown st (length-cells-Step exec st)
    where
      grown : {q : Pool A S} → Step exec p q → length q.cells ≡ length p.cells → Grown q
      grown (Threads.spawns f k) l = ground arith
      grown (Threads.spawn_fails f k) l = ground arith
      grown (Threads.constructs f k) l = ground arith
      grown (Threads.enters k) l = v
      grown (Threads.finishes i a e) l = v
      grown (Threads.begins a) l = v
      grown (Threads.destroys f) l = ground arith
      grown (Threads.clears c s f e) l = (λ r. absurd (cc r), λ z. absurd (omega arith))
      grown _ l = (λ r. v.0 r ∙ sym l, v.1)

  module _ {n : ℕ} {world : S} where
    pub Reach-Grown : {p : Pool A S} → Reach exec n world p → Grown p
    unfolding Threads.begin
    Reach-Grown Threads.start = (λ r. absurd (cc r), λ _. refl)
    Reach-Grown (Threads.later r st) = Step-Grown st (Reach-Grown r)
