-- ===== src/Concurrency/ThreadPool/Threads/Liveness.antt =====
-- What becomes of the tasks and of the threads once the pool is left alone.
use cmake_template.Base.{
  weigh, ℕ, zero, suc, ◌<◌, ◌≤◌, ◌≡◌, refl, ap, ◌∙◌, inl, inr, Bool, true, false, List, [], ◌∷◌,
  length, get_elem?, some, arith,
}
use cmake_template.Concurrency.ThreadPool.Threads
use cmake_template.Concurrency.ThreadPool.Threads.{
  Worker, exited, Phase, constructing, running, closing, Pool, Step, Reach,
}
use cmake_template.Concurrency.ThreadPool.Threads.Costs.{from_outside, steps_left}
use cmake_template.Concurrency.ThreadPool.Threads.Progress.{
  Run, stays, goes, Run-Reach, threads_stop,
}
use cmake_template.Concurrency.ThreadPool.Threads.Rest.{IsQuiet, all_executed, join_returns}
use cmake_template.Concurrency.ThreadPool.Threads.Moves.{comes_to_rest}

-- Once the constructor has returned, and once the destructor has begun, there is no way back.
abbrev stage : Phase → ℕ
stage constructing = 0
stage running = 1
stage (closing c) = 2

module _ {ℓ} {A : Type ℓ} where
  -- The loop of `join` over the threads that were started, which are those that can be joined: whether
  -- every `thread.join()` returns. A thread that has no index yet is still in `run`.
  abbrev pub joins : (started : ℕ) → List (Worker A) → Bool
  joins zero ws = true
  joins (suc n) (exited ∷ ws) = joins n ws
  joins (suc n) _ = false

  all_exited-joins :
      (n : ℕ) (ws : List (Worker A))
      → ((i : ℕ) → i < n → get_elem? ws i ≡ some exited)
      → joins n ws ≡ true
  all_exited-joins zero ws h = refl
  all_exited-joins (suc n) [] h = absurd (cc (h 0 (omega arith)))
  all_exited-joins (suc n) (w ∷ ws) h =
      let first : w ≡ exited = cc (h 0 (omega arith)) in
      rw first (all_exited-joins n ws (λ i k. h (suc i) (omega (arith, k))))

module _ {ℓ} {A S : Type ℓ} (exec : A → S → S) where
  -- What the pool's own steps leave as it is.
  abbrev Kept : Pool A S → Pool A S → Type ℓ
  Kept p q = (q.submitted ≡ p.submitted) × (0 < stage p.phase → stage q.phase ≡ stage p.phase)

  Step-Kept : {p q : Pool A S} (st : Step exec p q) → from_outside st ≡ false → Kept p q
  Step-Kept (Threads.spawn_fails f k) o =
      (refl, λ h. absurd (let z = rw f at h in omega (arith, z)))
  Step-Kept (Threads.constructs f k) o = (refl, λ h. absurd (let z = rw f at h in omega (arith, z)))
  Step-Kept (Threads.begins a) o = absurd (cc o)
  Step-Kept (Threads.wakes_spuriously c s e) o = absurd (cc o)
  Step-Kept (Threads.destroys f) o = absurd (cc o)
  Step-Kept {p} (Threads.clears c s f e) o = (refl, λ _. rw f refl)
  Step-Kept _ o = (refl, λ _. refl)

  Run-Kept : {p q : Pool A S} {m : ℕ} → Run exec p m q → Kept p q
  Run-Kept stays = (refl, λ _. refl)
  Run-Kept {p} (goes run st o) =
      let before = Run-Kept run in
      let after = Step-Kept st o in
      (after.0 ∙ before.0, λ h. after.1 (omega (arith, h, before.1 h)) ∙ before.1 h)

  pub Run-submitted : {p q : Pool A S} {m : ℕ} → Run exec p m q → q.submitted ≡ p.submitted
  Run-submitted run = (Run-Kept run).0

  running_of_stage : {p : Pool A S} → IsQuiet p → stage p.phase ≡ 1 → p.phase ≡ running
  running_of_stage v e = elim (IsQuiet.settled v) [
    | inl f ↦ f
    | inr f ↦ absurd (let z = rw f at e in omega (arith, z))
  ]

  closing_of_stage :
      {p : Pool A S} → IsQuiet p → stage p.phase ≡ 2 → p.phase ≡ closing (length p.cells)
  closing_of_stage v e = elim (IsQuiet.settled v) [
    | inr f ↦ f
    | inl f ↦ absurd (let z = rw f at e in omega (arith, z))
  ]

  -- A running pool still runs when its own steps are over, and a closing one has closed.
  pub running_rests :
      {p q : Pool A S} {m : ℕ}
      → Run exec p m q
      → p.phase ≡ running
      → IsQuiet q
      → (q.phase ≡ running) × (q.submitted ≡ p.submitted)
  running_rests {p} run e v =
      let at_first : stage p.phase ≡ 1 = rw e refl in
      let kept = Run-Kept run in
      (running_of_stage v (kept.1 (omega (arith, at_first)) ∙ at_first), kept.0)

  module _ {n : ℕ} {world : S} where
    pub executed_at_rest :
        {p q : Pool A S} {m : ℕ} (w : A → ℕ)
        → Reach exec n world p
        → p.phase ≡ running
        → Run exec p m q
        → IsQuiet q
        → weigh w q.executed ≡ weigh w p.submitted
    executed_at_rest w r e run v =
        let (still, same) = running_rests run e v in
        all_executed exec w (Run-Reach exec r run) v still ∙ ap (weigh w) same

    pub joined_at_rest :
        {p q : Pool A S} {m : ℕ} (c : ℕ)
        → Reach exec n world p
        → p.phase ≡ closing c
        → Run exec p m q
        → IsQuiet q
        → (q.phase ≡ closing (length q.cells)) × (joins q.spawned q.workers ≡ true)
    joined_at_rest {p} {q} c r e run v =
        let at_first : stage p.phase ≡ 2 = rw e refl in
        let kept = Run-Kept run in
        let still = closing_of_stage v (kept.1 (omega (arith, at_first)) ∙ at_first) in
        (
          still,
          all_exited-joins q.spawned q.workers
              (λ i k. join_returns exec (length q.cells) i (Run-Reach exec r run) v still k),
        )

    -- A running pool comes to execute what has been scheduled,
    pub tasks_get_executed :
        {p : Pool A S} (w : A → ℕ)
        → 0 < n
        → Reach exec n world p
        → p.phase ≡ running
        → (m : ℕ) × (q : Pool A S) × Run exec p m q
          × (m ≤ steps_left (length p.cells) p)
          × (weigh w q.executed ≡ weigh w p.submitted)
    tasks_get_executed w h r e =
        let (m, q, run, v) = comes_to_rest exec h r in
        (m, q, run, threads_stop exec r run, executed_at_rest w r e run v)

    -- and the destructor ends.
    pub join_ends :
        {p : Pool A S} (c : ℕ)
        → 0 < n
        → Reach exec n world p
        → p.phase ≡ closing c
        → (m : ℕ) × (q : Pool A S) × Run exec p m q
          × (m ≤ steps_left (length p.cells) p)
          × (q.phase ≡ closing (length q.cells))
          × (joins q.spawned q.workers ≡ true)
    join_ends c h r e =
        let (m, q, run, v) = comes_to_rest exec h r in
        let (closed, joined) = joined_at_rest c r e run v in
        (m, q, run, threads_stop exec r run, closed, joined)
