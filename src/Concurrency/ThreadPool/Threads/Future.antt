-- ===== src/Concurrency/ThreadPool/Threads/Future.antt =====
-- wait.hpp on the pool: chains of senders, given to a thread pool, and their futures.
use cmake_template.Base.{
  dec_lt, ◌⊎◌, inl, inr, ◌==◌, if◌then◌else◌, Bool-cases, false, weigh, ◌≡◌, refl, sym, ap, ==_iff,
  ◌∙◌, ℕ, ◌<◌, ◌≤◌, List, [], ◌∷◌, ◌++◌, length, some, arith,
}
use cmake_template.Concurrency.Future.{SharedState, fresh, get}
use cmake_template.Core.Contract.{throws, domain_error}
use cmake_template.Concurrency.Promise.{destroy_promise}
use cmake_template.Concurrency.ThreadPool.Threads.Accounts.{tasks_accounted}
use cmake_template.Concurrency.Sender.{Sender, wait}
use cmake_template.Concurrency.Sender.Denote.{Computation, Denotes}
use cmake_template.Concurrency.Sender.Wait.{
  attached, get-destroyed, submit, run_tasks, as_result, get-wait,
}
use cmake_template.Concurrency.ThreadPool.Threads.{Pool, Reach, running}
use cmake_template.Concurrency.ThreadPool.Threads.World.{exec_all, exec_all-append, world-Reach}
use cmake_template.Concurrency.ThreadPool.Threads.Costs.{steps_left}
use cmake_template.Concurrency.ThreadPool.Threads.Progress.{Run, Run-Reach}
use cmake_template.Concurrency.ThreadPool.Threads.Moves.{Move}
use cmake_template.Concurrency.ThreadPool.Threads.Liveness.{executed_at_rest, tasks_get_executed}
use cmake_template.Concurrency.ThreadPool.Threads.Always.{in_the_end}

-- What the pool executes: the task of a call of `wait`, by the number of the call, or a task that
-- changes the rest of the program.
pub data Job (W : Type 0) : Type 0 where
  waited : ℕ → Job W
  other : (W → W) → Job W

abbrev pub is_waited : {W : Type 0} → ℕ → Job W → ℕ
is_waited i (waited j) = if i == j then 1 else 0
is_waited i (other f) = 0

-- The shared states of the futures, and the rest of the program.
abbrev pub World : Type 0 → Type 0 → Type 0
World V W = (ℕ → SharedState V) × W

abbrev pub update : {V : Type 0} → (ℕ → SharedState V) → ℕ → SharedState V → ℕ → SharedState V
update states i t j = if j == i then t else states j

-- Nothing is resolved yet.
abbrev pub at_first : {V W : Type 0} → W → World V W
at_first w = (λ i. fresh, w)

-- The senders of the calls of `wait`.
module _ {V W : Type 0} (senders : ℕ → Sender V W) where
  abbrev pub exec : Job W → World V W → World V W
  exec (waited i) (states, w) =
      let (t, w') = run_tasks (wait submit (senders i) []).0 (states i) w in (update states i t, w')
  exec (other f) (states, w) = (states, f w)

  -- The rest of the program, once these jobs have run.
  abbrev pub program_after : List (Job W) → W → W
  program_after js w = (exec_all exec js (at_first w)).1

  -- The state of a future is its task's own.
  untouched :
      (i : ℕ) (js : List (Job W)) (world : World V W)
      → weigh (is_waited i) js ≡ 0
      → (exec_all exec js world).0 i ≡ world.0 i
  untouched i [] world e = refl
  untouched i (other f ∷ js) world e = untouched i js (exec (other f) world) (omega (arith, e))
  untouched i (waited j ∷ js) world e = elim (Bool-cases (i == j)) [
    | inl s ↦ absurd (let z = rw s at e in omega (arith, z))
    | inr d ↦
        let z = rw d at e in untouched i js (exec (waited j) world) (omega (arith, z)) ∙ rw d refl
  ]

  none_before :
      (i j : ℕ) (js : List (Job W))
      → (i == j) ≡ false
      → weigh (is_waited i) js ≡ 0
      → weigh (is_waited i) (waited j ∷ js) ≡ 0
  none_before i j js d h = rw d (omega (arith, h))

  -- The one place of the task.
  split_at_waited :
      (i : ℕ) (js : List (Job W))
      → weigh (is_waited i) js ≡ 1
      → (xs : List (Job W)) × (ys : List (Job W)) × (js ≡ xs ++ (waited i ∷ ys))
        × (weigh (is_waited i) xs ≡ 0)
        × (weigh (is_waited i) ys ≡ 0)
  split_at_waited i [] e = absurd (omega (arith, e))
  split_at_waited i (other f ∷ js) e =
      let (xs, ys, g, h, k) = split_at_waited i js (omega (arith, e)) in
      (other f ∷ xs, ys, ap (λ z. other f ∷ z) g, omega (arith, h), k)
  split_at_waited i (waited j ∷ js) e =
      let rest = split_at_waited i js in
      elim (Bool-cases (i == j)) [
        | inl s ↦
            let same = (==_iff i j).0 s in
            let z = rw s at e in
            ([], js, ap (λ l. waited l ∷ js) (sym same), omega arith, omega (arith, z))
        | inr d ↦
            let z = rw d at e in
            let (xs, ys, g, h, k) = rest (omega (arith, z)) in
            (waited j ∷ xs, ys, ap (λ l. waited j ∷ l) g, none_before i j xs d h, k)
      ]

  pub own_update :
      (states : ℕ → SharedState V) (i : ℕ) (t : SharedState V) → update states i t i ≡ t
  own_update states i t = let self = (==_iff i i).1 refl in rw self refl

  -- The shared state, once the jobs `xs`, the task and the jobs `ys` have run.
  ran :
      (i : ℕ) (xs ys : List (Job W)) (w : W)
      → weigh (is_waited i) xs ≡ 0
      → weigh (is_waited i) ys ≡ 0
      → (exec_all exec (xs ++ (waited i ∷ ys)) (at_first w)).0 i
        ≡ (run_tasks (wait submit (senders i) []).0 fresh (program_after xs w)).0
  ran i xs ys w h k =
      let world = exec_all exec xs (at_first w) in
      let own = untouched i xs (at_first w) h in
      ap (λ z. z.0 i) (exec_all-append exec xs (waited i ∷ ys) (at_first w))
      ∙ untouched i ys (exec (waited i) world) k
      ∙ own_update world.0 i _
      ∙ ap (λ t. (run_tasks (wait submit (senders i) []).0 t world.1).0) own

  module _ (m : ℕ → Computation V W) (moved : V → V) where
    -- The future, once its task has been executed.
    abbrev pub Answered : (i : ℕ) (w : W) → Pool (Job W) (World V W) → Type 0
    Answered i w q =
        (xs : List (Job W)) × (ys : List (Job W)) × (q.executed ≡ xs ++ (waited i ∷ ys))
        × ((get moved (q.world.0 i)).0 ≡ some (as_result (m i (program_after xs w)).0))

  module _ (m : ℕ → Computation V W) (d : (i : ℕ) → Denotes (senders i) (m i)) (moved : V → V) where
    answered :
        {n : ℕ} {w : W} {q : Pool (Job W) (World V W)} (i : ℕ)
        → Reach exec n (at_first w) q
        → weigh (is_waited i) q.executed ≡ 1
        → Answered m moved i w q
    unfolding wait
    answered {w = w} {q = q} i r once =
        let (xs, ys, g, a, b) = split_at_waited i q.executed once in
        let world : q.world ≡ exec_all exec (xs ++ (waited i ∷ ys)) (at_first w) =
          world-Reach exec r ∙ ap (λ z. exec_all exec z (at_first w)) g in
        (
          xs,
          ys,
          g,
          rw world (
              rw (ran i xs ys w a b)
                (get-wait (senders i) (m i) (d i) moved (program_after xs w)).0),
        )

    -- Chains run on the pool. The future of a call of `wait(sender)` on a thread pool, beside any
    -- number of other calls of `wait` and other tasks: from every state that a running pool of at
    -- least one thread reaches in which the task of the call has been scheduled once, in whatever order
    -- the threads and the calls under way take their steps, they make at most `steps_left` steps, and
    -- when none of them can go on, `get` answers the outcome of that sender's computation, value or
    -- exception, in the program as the tasks executed before it leave it.
    pub get-pool :
        {n l : ℕ} {w : W} {p q : Pool (Job W) (World V W)} (i : ℕ)
        → 0 < n
        → Reach exec n (at_first w) p
        → p.phase ≡ running
        → weigh (is_waited i) p.submitted ≡ 1
        → Run exec p l q
        → (l ≤ steps_left (length p.cells) p) × (Move exec q ⊎ Answered m moved i w q)
    get-pool i h r e once run = in_the_end exec h r run (λ v.
        answered i (Run-Reach exec r run) (executed_at_rest exec (is_waited i) r e run v ∙ once))

    -- Such an end is reached.
    pool_answers :
        {n : ℕ} {w : W} {p : Pool (Job W) (World V W)} (i : ℕ)
        → 0 < n
        → Reach exec n (at_first w) p
        → p.phase ≡ running
        → weigh (is_waited i) p.submitted ≡ 1
        → (l : ℕ) × (q : Pool (Job W) (World V W)) × Run exec p l q × Answered m moved i w q
    pool_answers i h r e once =
        let (l, q, run, bound, all) = tasks_get_executed exec (is_waited i) h r e in
        (l, q, run, answered i (Run-Reach exec r run) (all ∙ once))

    executed_once :
        {n : ℕ} {w : W} {p : Pool (Job W) (World V W)} (i : ℕ)
        → Reach exec n (at_first w) p
        → weigh (is_waited i) p.submitted ≡ 1
        → (weigh (is_waited i) p.executed ≡ 1) ⊎ (weigh (is_waited i) p.executed ≡ 0)
    executed_once {p = p} i r once = elim (dec_lt 0 (weigh (is_waited i) p.executed)) [
      | yes h ↦ inl (omega (arith, h, once, tasks_accounted exec (is_waited i) r))
      | no h ↦ inr (omega (arith, h))
    ]

    -- No future is left without an answer. In every state that a pool reaches in which the task of a
    -- call of `wait(sender)` has been scheduled once, beside any other calls of `wait` and other
    -- tasks: if the task is destroyed, and its promise with it, then `get` answers, with the outcome of
    -- that sender's computation if the task has been executed, and otherwise with the exception
    -- `broken promise`.
    get-destroyed_pool :
        {n : ℕ} {w : W} {p : Pool (Job W) (World V W)} (i : ℕ)
        → Reach exec n (at_first w) p
        → weigh (is_waited i) p.submitted ≡ 1
        → ((xs : List (Job W)) × (ys : List (Job W)) × (p.executed ≡ xs ++ (waited i ∷ ys))
            × ((get moved (destroy_promise attached (p.world.0 i))).0
                ≡ some (as_result (m i (program_after xs w)).0)))
          ⊎ ((weigh (is_waited i) p.executed ≡ 0)
              × ((get moved (destroy_promise attached (p.world.0 i))).0
                  ≡ some (throws (domain_error "broken promise"))))
    unfolding wait
    get-destroyed_pool {w = w} {p = p} i r once = elim (executed_once i r once) [
      | inl e ↦
          let (xs, ys, g, h, k) = split_at_waited i p.executed e in
          let world : p.world ≡ exec_all exec (xs ++ (waited i ∷ ys)) (at_first w) =
            world-Reach exec r ∙ ap (λ z. exec_all exec z (at_first w)) g in
          let done = (get-destroyed (senders i) (m i) (d i) moved (program_after xs w)).0 in
          inl (xs, ys, g, rw world (rw (ran i xs ys w h k) done))
      | inr e ↦
          let own = untouched i p.executed (at_first w) e in
          let broken = (get-destroyed (senders i) (m i) (d i) moved w).1 in
          inr (e, rw (world-Reach exec r) (rw own broken))
    ]
