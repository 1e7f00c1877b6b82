-- ===== src/Concurrency/ThreadPool/Clients/Moves.antt =====
-- The steps of the pool beside its clients: those of the pool, and a question before the end of a task.
use cmake_template.Base.{
  ℕ, ◌+◌, ◌≡◌, refl, ap, ◌∙◌, inl, inr, Bool, Bool-cases, true, false, Option, some, List,
  get_elem?, Option-cases,
}
use cmake_template.Concurrency.Sender.Chain.{Chain}
use cmake_template.Concurrency.ThreadPool.Threads
use cmake_template.Concurrency.ThreadPool.Threads.{busy, running, Pool}
use cmake_template.Concurrency.ThreadPool.Threads.Future.{Job, World, waited, other}
use cmake_template.Concurrency.ThreadPool.Threads.Costs.{from_outside}
use cmake_template.Concurrency.ThreadPool.Threads.Progress
use cmake_template.Concurrency.ThreadPool.Threads.Progress.{threads_stop}
use cmake_template.Concurrency.ThreadPool.Clients
use cmake_template.Concurrency.ThreadPool.Clients.{
  Event, note, Program, PoolStep, Aside, Reach, Run, Move, works, ends, ends_other, asks, cancels,
  changes, nothing, is_end, outside,
}
use cmake_template.Concurrency.ThreadPool.Clients.Invariant.{noted, pool_step, Told}

module _ {V W : Type 0} (chains : ℕ → Chain W V) where
  pub inside :
      {p q : Program V W} (st : PoolStep chains p q)
      → outside chains st ≡ false
      → from_outside (pool_step chains st) ≡ false
  inside (works st o) k = k
  inside (ends k i b e f) h = refl
  inside (ends_other k f e) h = refl

  pub Run-pool :
      {p q : Program V W} {m : ℕ} → Run chains p m q → Progress.Run nothing p.pool m q.pool
  Run-pool Clients.stays = Progress.stays
  Run-pool (Clients.goes run st o) =
      Progress.goes (Run-pool run) (pool_step chains st) (inside st o)
  Run-pool (Clients.meanwhile run (asks k i e f)) = Run-pool run
  Run-pool (Clients.meanwhile run (cancels i)) = Run-pool run
  Run-pool (Clients.meanwhile run (changes f)) = Run-pool run

  -- A worker at the end of its task has asked, or can ask.
  task_moves :
      {p : Program V W} (k i : ℕ)
      → Told chains p
      → get_elem? p.pool.workers k ≡ some (busy (waited i))
      → Move chains p
  task_moves {p} k i told e = elim (Option-cases (p.asked k)) [
    | inl unasked ↦ inr (k, i, e, unasked)
    | inr ((j, b), answer) ↦
        let there = told k j b answer in
        let same : j ≡ i = cc in inl (_, ends k i b e (answer ∙ ap (λ l. some (l, b)) same), refl)
  ]

  end_moves :
      {p : Program V W} {q : Pool (Job W) (Unit {0})} (st : Threads.Step nothing p.pool q)
      → Told chains p
      → is_end st ≡ true
      → Move chains p
  end_moves (Threads.finishes k (waited i) e) told h = task_moves k i told e
  end_moves (Threads.finishes k (other f) e) told h = inl (_, ends_other k f e, refl)
  end_moves _ told h = absurd (cc h)

  pub pool_moves :
      {p : Program V W} {q : Pool (Job W) (Unit {0})} (st : Threads.Step nothing p.pool q)
      → Told chains p
      → from_outside st ≡ false
      → Move chains p
  pool_moves st told o = elim (Bool-cases (is_end st)) [
    | inl e ↦ end_moves st told e
    | inr g ↦ inl (_, works st g, o)
  ]

  abbrev pub Lifted : Program V W → ℕ → Pool (Job W) (Unit {0}) → Type 0
  Lifted p m r =
      (a : ℕ → Option (ℕ × Bool)) × (s : World V W) × (h : List (Event W)) × Run chains p m
        (record { pool = r; asked = a; world = s; history = h })

  lift_end :
      {p q : Program V W} {m : ℕ} {r : Pool (Job W) (Unit {0})}
      → Run chains p m q
      → (st : Threads.Step nothing q.pool r) → Told chains q
      → is_end st ≡ true
      → Lifted p (m + 1) r
  lift_end run (Threads.finishes k (other f) e) told h =
      (_, _, _, Clients.goes run (ends_other k f e) refl)
  lift_end {q = q} run (Threads.finishes k (waited i) e) told h = elim (Option-cases (q.asked k)) [
    | inl unasked ↦
        let answer = noted q.asked k _ in
        (
          _,
          _,
          _,
          Clients.goes (Clients.meanwhile run (asks k i e unasked)) (ends k i _ e answer) refl,
        )
    | inr ((j, b), answer) ↦
        let there = told k j b answer in
        let same : j ≡ i = cc in
        (_, _, _, Clients.goes run (ends k i b e (answer ∙ ap (λ l. some (l, b)) same)) refl)
  ]
  lift_end run _ told h = absurd (cc h)

  -- A step of the pool, after the question that it may need.
  pub lift_step :
      {p q : Program V W} {m : ℕ} {r : Pool (Job W) (Unit {0})}
      → Run chains p m q
      → (st : Threads.Step nothing q.pool r) → Told chains q
      → from_outside st ≡ false
      → Lifted p (m + 1) r
  lift_step run st told o = elim (Bool-cases (is_end st)) [
    | inl e ↦ lift_end run st told e
    | inr g ↦ (_, _, _, Clients.goes run (works st g) o)
  ]
