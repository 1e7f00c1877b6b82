-- ===== src/Concurrency/ThreadPool/Threads/Takes.antt =====
-- A worker of the pool that no lock hinders, and what its call of `scheduled` gets it.
use cmake_template.Base.{
  ℕ, zero, suc, ◌+◌, ◌≤◌, ◌≡◌, ◌≢◌, refl, ap, ◌∙◌, inl, inr, List, ◌∷◌, [], some, get_elem?, length,
  length_of_get_elem?, set, weigh, weigh-set, uint_mod, arith,
}
use cmake_template.Concurrency.Queue.Wakeup.{System}
use cmake_template.Concurrency.RrScheduler.Balance.{all_free}
use cmake_template.Concurrency.RrScheduler.Scan.{scheduled_misses_nothing}
use cmake_template.Concurrency.ThreadPool.Threads.{scanning, busy, Pool, Reach, after_pop}
use cmake_template.Concurrency.ThreadPool.Threads.Accounts.{
  weigh_worker, weigh_call, weigh_cell, tasks_accounted,
}
use cmake_template.Concurrency.ThreadPool.Threads.Calls.{queues, length-queues, scheduled-Run}
use cmake_template.Concurrency.ThreadPool.Threads.Progress.{Run, Run-Reach}

module _ {ℓ} {A : Type ℓ} where
  get_elem?-queues :
      (cells : List (System A)) (c : ℕ) (s : System A)
      → get_elem? cells c ≡ some s
      → get_elem? (queues cells) c ≡ some s.queue
  get_elem?-queues [] c s e = absurd (cc e)
  get_elem?-queues (t ∷ cells) zero s e = let same : t ≡ s = cc in rw same refl
  get_elem?-queues (t ∷ cells) (suc c) s e = get_elem?-queues cells c s e

module _ {ℓ} {A S : Type ℓ} (exec : A → S → S) {n : ℕ} {world : S} where
  -- The scheduler shares its tasks. In every state that a pool reaches, if worker `i` is about to call
  -- `scheduled` and any queue of the pool holds a task, no matter which, then some run of the pool
  -- leads to a state where the worker executes some task `a`: that task has left the queues, which
  -- hold all other tasks as often as before, by any weight `w`, and all but the worker and the queues
  -- is as it was. This is for an index of the worker that reaches, with the number of queues, no
  -- further than 2 ^ 32.
  pub worker_takes_task :
      {p : Pool A S} (i c : ℕ) (s : System A)
      → Reach exec n world p
      → i + length p.cells ≤ uint_mod
      → get_elem? p.workers i ≡ some (scanning 0)
      → get_elem? p.cells c ≡ some s
      → s.queue.container ≢ []
      → (a : A) × (m : ℕ) × (q : Pool A S) × Run exec p m q
        × (q ≡ record p { cells = q.cells; workers = set p.workers i (busy a) })
        × ((w : A → ℕ) → w a + weigh (weigh_cell w) q.cells ≡ weigh (weigh_cell w) p.cells)
  worker_takes_task {p} i c s r small e f full =
      let inside = length_of_get_elem? p.cells c s f in
      let count = length-queues p.cells in
      elim (scheduled_misses_nothing all_free (λ k. refl) i (queues p.cells)
        (omega (arith, count, inside)) (omega (arith, count, small))) [
          | inr idle ↦ absurd (
              full (idle c (omega (arith, count, inside)) s.queue (get_elem?-queues p.cells c s f)))
          | inl (a, found) ↦
              let (m, q, run, same, frame) =
                scheduled-Run exec all_free p i (omega (arith, inside)) e in
              let frame' : q ≡ record p { cells = q.cells; workers = set p.workers i (busy a) } =
                frame
                ∙ ap {A = _}
                    (λ x. record p { cells = q.cells; workers = set p.workers i (after_pop x) })
                    found in
              (
                a,
                m,
                q,
                run,
                frame',
                λ w. omega (
                  arith,
                  tasks_accounted exec w r,
                  tasks_accounted exec w (Run-Reach exec r run),
                  ap (λ (z : Pool A S). weigh w z.executed) frame',
                  ap (λ (z : Pool A S). weigh (weigh_worker w) z.workers) frame',
                  ap (λ (z : Pool A S). weigh (weigh_call w) z.calls) frame',
                  ap (λ (z : Pool A S). weigh w z.dropped) frame',
                  ap (λ (z : Pool A S). weigh w z.submitted) frame',
                  weigh-set (weigh_worker w) p.workers i (scanning 0) (busy a) e,
                ),
              )
        ]
