-- ===== src/Concurrency/ThreadPool/Threads/Cells.antt =====
-- Each queue of the pool, with what happens on it, is a queue under threads of its own.
use cmake_template.Base.{
  ℕ, ◌≡◌, refl, sym, subst, ◌∙◌, some, length, get_elem?, set, length-set, length-replicate,
  get_elem?-set_all, get_elem?-replicate,
}
use cmake_template.Concurrency.Queue.Wakeup
use cmake_template.Concurrency.Queue.Wakeup.{System}
use cmake_template.Concurrency.ThreadPool.Threads
use cmake_template.Concurrency.ThreadPool.Threads.{Pool, Step, Reach}

module _ {ℓ} {A S : Type ℓ} (exec : A → S → S) where
  pub length-cells-Step : {p q : Pool A S} → Step exec p q → length q.cells ≡ length p.cells
  length-cells-Step {p} (Threads.tries i n locked s e h f) = length-set p.cells _ _
  length-cells-Step {p} (Threads.pops i s e f) = length-set p.cells _ _
  length-cells-Step {p} (Threads.wakes i s e f h) = length-set p.cells _ _
  length-cells-Step {p} (Threads.try_pushes j call locked s e h f) = length-set p.cells _ _
  length-cells-Step {p} (Threads.pushes j call s e h f) = length-set p.cells _ _
  length-cells-Step {p} (Threads.notifies c s e h) = length-set p.cells _ _
  length-cells-Step {p} (Threads.notifies_all c s e h) = length-set p.cells _ _
  length-cells-Step {p} (Threads.wakes_spuriously c s e) = length-set p.cells _ _
  length-cells-Step {p} (Threads.clears c s f e) = length-set p.cells _ _
  length-cells-Step _ = refl

  -- Every queue is in a state that Queue.Wakeup reaches.
  abbrev Queues : Pool A S → Type ℓ
  Queues p = (c : ℕ) (s : System A) → get_elem? p.cells c ≡ some s → Wakeup.Reach s

  queue_moves :
      (p : Pool A S) (c : ℕ) (s t : System A)
      → get_elem? p.cells c ≡ some s
      → Wakeup.Step s t
      → Queues p
      → (d : ℕ) (u : System A) → get_elem? (set p.cells c t) d ≡ some u
      → Wakeup.Reach u
  queue_moves p c s t e st h =
      get_elem?-set_all (λ _. Wakeup.Reach) p.cells c t h (Wakeup.later (h c s e) st)

  Step-Queues : {p q : Pool A S} → Step exec p q → Queues p → Queues q
  Step-Queues {p} (Threads.tries i n locked s e k f) h =
      queue_moves p _ s _ f (Wakeup.try_pops locked) h
  Step-Queues {p} (Threads.pops i s e f) h = queue_moves p _ s _ f Wakeup.pops h
  Step-Queues {p} (Threads.wakes i s e f k) h = queue_moves p _ s _ f (Wakeup.resumes k) h
  Step-Queues {p} (Threads.try_pushes j call locked s e k f) h =
      queue_moves p _ s _ f (Wakeup.try_pushes locked call.task) h
  Step-Queues {p} (Threads.pushes j call s e k f) h =
      queue_moves p _ s _ f (Wakeup.pushes call.task) h
  Step-Queues {p} (Threads.notifies c s e k) h = queue_moves p c s _ e (Wakeup.notifies k) h
  Step-Queues {p} (Threads.notifies_all c s e k) h = queue_moves p c s _ e (Wakeup.notifies_all k) h
  Step-Queues {p} (Threads.wakes_spuriously c s e) h =
      queue_moves p c s _ e Wakeup.wakes_spuriously h
  Step-Queues {p} (Threads.clears c s f e) h = queue_moves p c s _ e Wakeup.clears h
  Step-Queues _ h = h

  module _ {n : ℕ} {world : S} where
    pub length-cells : {p : Pool A S} → Reach exec n world p → length p.cells ≡ n
    unfolding Threads.begin
    length-cells Threads.start = length-replicate n Wakeup.idle
    length-cells (Threads.later r st) = length-cells-Step st ∙ length-cells r

    -- Whatever the threads of a pool do, each of its queues goes through states of a queue on its own:
    -- in every reachable state of the pool, every queue with its sleepers and its outstanding
    -- notifications is in a state that some interleaving of callers of that one queue reaches.
    pub queue-Reach :
        {p : Pool A S} (c : ℕ) (s : System A)
        → Reach exec n world p
        → get_elem? p.cells c ≡ some s
        → Wakeup.Reach s
    unfolding Threads.begin
    queue-Reach c s Threads.start e =
        subst Wakeup.Reach (sym (get_elem?-replicate n Wakeup.idle c s e)) Wakeup.start
    queue-Reach c s (Threads.later r st) e = Step-Queues st (λ d u. queue-Reach d u r) c s e
