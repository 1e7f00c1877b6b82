-- ===== src/Concurrency/ThreadPool/Threads/Escapes.antt =====
-- thread_pool.hpp: tasks that throw. `run` is `noexcept`, so an exception that leaves a task ends the
-- program.
use cmake_template.Base.{
  ℕ, ◌+◌, ◌<◌, ◌≤◌, ◌≡◌, refl, ap, ◌∙◌, ◌⊎◌, inl, inr, Bool, true, false, [], ◌∷◌, if◌then◌else◌,
  Bool-cases, weigh, weigh-append, length, get_elem?, some, arith,
}
use cmake_template.Concurrency.ThreadPool.Threads
use cmake_template.Concurrency.ThreadPool.Threads.{busy, running, Pool, Step, Reach, begin}
use cmake_template.Concurrency.ThreadPool.Threads.Accounts.{tasks_accounted}
use cmake_template.Concurrency.ThreadPool.Threads.Costs.{from_outside, steps_left}
use cmake_template.Concurrency.ThreadPool.Threads.Progress
use cmake_template.Concurrency.ThreadPool.Threads.Progress.{Run, Run-Reach, threads_stop}
use cmake_template.Concurrency.ThreadPool.Threads.Moves.{rests_or_moves}
use cmake_template.Concurrency.ThreadPool.Threads.Liveness.{executed_at_rest, Run-submitted}

-- The program with the pool, or what is left once the exception of a task has ended it.
pub data Program {ℓ} (A S : Type ℓ) : Type ℓ where
  alive : Pool A S → Program A S
  terminated : A → Program A S

module _ {ℓ} {A S : Type ℓ} (exec : A → S → S) (throws : A → Bool) where
  -- Whether a step of the pool is the end of a task that throws.
  abbrev pub throwing : {p q : Pool A S} → Step exec p q → Bool
  throwing (Threads.finishes i a e) = throws a
  throwing _ = false

  pub data ProgramStep : Program A S → Program A S → Type ℓ where
    goes_on :
        {p q : Pool A S}
        → (st : Step exec p q) → throwing st ≡ false
        → ProgramStep (alive p) (alive q)
    terminates :
        {p : Pool A S} (i : ℕ) (a : A)
        → get_elem? p.workers i ≡ some (busy a)
        → throws a ≡ true
        → ProgramStep (alive p) (terminated a)

  abbrev pub outside : {x y : Program A S} → ProgramStep x y → Bool
  outside (goes_on st k) = from_outside st
  outside (terminates i a e k) = false

  -- One of the program's own threads can go on.
  abbrev pub ProgramMove : Program A S → Type ℓ
  ProgramMove x = (y : Program A S) × (st : ProgramStep x y) × (outside st ≡ false)

  pub data ProgramReach (n : ℕ) (world : S) : Program A S → Type ℓ where
    start : ProgramReach n world (alive (begin exec n world))
    later : {x y : Program A S} → ProgramReach n world x → ProgramStep x y → ProgramReach n world y

  -- A run of the pool's own threads and of the calls under way.
  pub data ProgramRun (p : Pool A S) : ℕ → Program A S → Type ℓ where
    stays : ProgramRun p 0 (alive p)
    goes :
        {m : ℕ} {x y : Program A S}
        → ProgramRun p m x
        → (st : ProgramStep x y) → outside st ≡ false
        → ProgramRun p (m + 1) y

  abbrev pub flag : A → ℕ
  flag a = if throws a then 1 else 0

  Step-flags :
      {p q : Pool A S} (st : Step exec p q)
      → throwing st ≡ false
      → weigh flag q.executed ≡ weigh flag p.executed
  Step-flags {p} (Threads.finishes i a e) k =
      omega (arith, weigh-append flag p.executed (a ∷ []), flag-zero a k)
    where
      flag-zero : (a : A) → throws a ≡ false → flag a ≡ 0
      flag-zero a k = rw k refl
  Step-flags _ k = refl

  -- While the program is alive, it is a pool whose executed tasks have not thrown.
  abbrev Unharmed : (n : ℕ) (world : S) → Program A S → Type ℓ
  Unharmed n world (alive p) = Reach exec n world p × (weigh flag p.executed ≡ 0)
  Unharmed n world (terminated a) = Unit

  ProgramReach-Unharmed :
      {n : ℕ} {world : S} {x : Program A S} → ProgramReach n world x → Unharmed n world x
  unfolding begin
  ProgramReach-Unharmed start = (Threads.start, refl)
  ProgramReach-Unharmed (later r (goes_on st k)) =
      let (reached, none) = ProgramReach-Unharmed r in
      (Threads.later reached st, Step-flags st k ∙ none)
  ProgramReach-Unharmed (later r (terminates i a e k)) = tt

  flag-one : (a : A) → throws a ≡ true → flag a ≡ 1
  flag-one a k = rw k refl

  -- The steps of the program are steps of the pool; the last one may have been the end of a task that
  -- throws.
  abbrev Traced : Pool A S → ℕ → Program A S → Type ℓ
  Traced p m (alive q) = Run exec p m q × (weigh flag q.executed ≡ weigh flag p.executed)
  Traced p m (terminated a) =
      (q : Pool A S) × Run exec p m q × (throws a ≡ true) × (0 < weigh flag q.executed)

  ProgramRun-Traced : {p : Pool A S} {m : ℕ} {x : Program A S} → ProgramRun p m x → Traced p m x
  ProgramRun-Traced stays = (Progress.stays, refl)
  ProgramRun-Traced (goes run (goes_on st k) o) =
      let (before, same) = ProgramRun-Traced run in
      (Progress.goes before st o, Step-flags st k ∙ same)
  ProgramRun-Traced (goes run (terminates {p = q} i a e k) o) =
      let (before, same) = ProgramRun-Traced run in
      (
        _,
        Progress.goes before (Threads.finishes i a e) refl,
        k,
        omega (arith, weigh-append flag q.executed (a ∷ []), flag-one a k),
      )

  finish_moves : {p q : Pool A S} (st : Step exec p q) → throwing st ≡ true → ProgramMove (alive p)
  finish_moves (Threads.finishes i a e) k = (_, terminates i a e k, refl)
  finish_moves _ k = absurd (cc k)

  -- A step of the pool is one of the program, or the end of it.
  program_moves :
      {p q : Pool A S} (st : Step exec p q) → from_outside st ≡ false → ProgramMove (alive p)
  program_moves st o = elim (Bool-cases (throwing st)) [
    | inl k ↦ finish_moves st k
    | inr k ↦ (_, goes_on st k, o)
  ]

  -- Where no task throws, the program is the pool.
  module _ (h : (a : A) → throws a ≡ false) where
    none_throwing : {p q : Pool A S} (st : Step exec p q) → throwing st ≡ false
    none_throwing (Threads.finishes i a e) = h a
    none_throwing _ = refl

    module _ {n : ℕ} {world : S} where
      pub Reach-ProgramReach :
          {p : Pool A S} → Reach exec n world p → ProgramReach n world (alive p)
      Reach-ProgramReach Threads.start = start
      Reach-ProgramReach (Threads.later r st) =
          later (Reach-ProgramReach r) (goes_on st (none_throwing st))

      pub stays_alive :
          {x : Program A S}
          → ProgramReach n world x
          → (p : Pool A S) × (x ≡ alive p) × Reach exec n world p
      stays_alive start = (_, refl, Threads.start)
      stays_alive (later r (goes_on st k)) = (_, refl, Threads.later (ProgramReach-Unharmed r).0 st)
      stays_alive (later r (terminates i a e k)) = absurd (cc (h a))

  -- What is left when none of the program's own threads can go on: an exception has ended the
  -- program, or there was none.
  abbrev pub Ends : (w : A → ℕ) → Pool A S → Program A S → Type 0
  Ends w p (alive q) = (weigh flag p.submitted ≡ 0) × (weigh w q.executed ≡ weigh w p.submitted)
  Ends w p (terminated a) = (throws a ≡ true) × (0 < weigh flag p.submitted)

  module _ {n : ℕ} {world : S} where
    module _ (w : A → ℕ) {p : Pool A S} (h : 0 < n) (r : Reach exec n world p) where
      alive-Ends :
          {q : Pool A S} {m : ℕ}
          → p.phase ≡ running
          → weigh flag p.executed ≡ 0
          → Traced p m (alive q)
          → (m ≤ steps_left (length p.cells) p) × (ProgramMove (alive q) ⊎ Ends w p (alive q))
      alive-Ends e none (run, same) = (
        threads_stop exec r run,
        elim (rests_or_moves exec h (Run-Reach exec r run)) [
          | inl v ↦ inr (
            omega (arith, none, same, executed_at_rest exec flag r e run v),
            executed_at_rest exec w r e run v,
          )
          | inr (t, st, o) ↦ inl (program_moves st o)
        ],
      )

      terminated-Ends :
          {a : A} {m : ℕ}
          → Traced p m (terminated a)
          → (m ≤ steps_left (length p.cells) p) × Ends w p (terminated a)
      terminated-Ends (q, run, k, some_threw) = (
        threads_stop exec r run,
        (
          k,
          omega (
            arith,
            some_threw,
            tasks_accounted exec flag (Run-Reach exec r run),
            ap (weigh flag) (Run-submitted exec run),
          ),
        ),
      )

    -- An exception that leaves a task ends the program, and nothing else keeps a task from being
    -- executed. From every state that a program reaches in which a pool of at least one thread runs,
    -- in whatever order its threads and the calls under way take their steps: they make at most
    -- `steps_left` steps, and when none of them can go on, either the program has been ended by a
    -- task that throws, and a task that throws had been scheduled; or no task scheduled throws, and
    -- the tasks executed weigh what the tasks scheduled weigh, by any weight `w` on tasks.
    pub throws_end_program :
        {p : Pool A S} {m : ℕ} {x : Program A S} (w : A → ℕ)
        → 0 < n
        → ProgramReach n world (alive p)
        → p.phase ≡ running
        → ProgramRun p m x
        → (m ≤ steps_left (length p.cells) p) × (ProgramMove x ⊎ Ends w p x)
    throws_end_program {x = alive q} w h r e run =
        let (reached, none) = ProgramReach-Unharmed r in
        alive-Ends w h reached e none (ProgramRun-Traced run)
    throws_end_program {x = terminated a} w h r e run =
        let (reached, none) = ProgramReach-Unharmed r in
        let (bound, ended) = terminated-Ends w h reached (ProgramRun-Traced run) in
        (bound, inr ended)
