-- ===== src/Concurrency/ThreadPool/Threads/Calls.antt =====
-- `scheduled` of rr_scheduler.cpp as the steps of one thread in the pool.
use cmake_template.Base.{
  ℕ, zero, suc, ◌+◌, ◌%◌, ◌<◌, ◌≡◌, refl, sym, ap, ◌∙◌, Bool, List, [], ◌∷◌, map, length, get_elem?,
  get_elem?-of_lt, get_elem?-set_self, length-set, length_of_get_elem?, set, set-set, set-get_elem?,
  some, add_uint, arith,
}
use native.Mathlib.Nat.{mod-lt}
use cmake_template.Concurrency.Queue.{Queue, Reply, item, nullopt, waits, fault, pop, try_pop}
use cmake_template.Concurrency.Queue.Wakeup.{System, settled}
use cmake_template.Concurrency.RrScheduler.{scan, scheduled, next_round, pop_own}
use cmake_template.Concurrency.RrScheduler.Access.{on_queue}
use cmake_template.Concurrency.ThreadPool.Threads
use cmake_template.Concurrency.ThreadPool.Threads.{
  Worker, scanning, busy, Call, Pool, Step, after_try, after_pop, after_push,
}
use cmake_template.Concurrency.ThreadPool.Threads.Progress.{Run, stays, goes, length-cells-Run}

module _ {ℓ} {A : Type ℓ} where
  -- `m_task_queue`, without the condition variables
  abbrev pub queues : List (System A) → List (Queue A)
  queues cells = map (λ s. s.queue) cells

  pub length-queues : (cells : List (System A)) → length (queues cells) ≡ length cells
  length-queues [] = refl
  length-queues (s ∷ cells) = ap suc (length-queues cells)

  -- A call on the queue of a cell.
  pub on_queue-queues {κ} :
      {R : Type κ} (bad : R) (f : Queue A → R × Queue A) (cells : List (System A)) (c : ℕ)
      (s t : System A)
      → get_elem? cells c ≡ some s
      → t.queue ≡ (f s.queue).1
      → on_queue bad f (queues cells) c ≡ ((f s.queue).0, queues (set cells c t))
  unfolding on_queue
  on_queue-queues bad f [] c s t e h = absurd (cc e)
  on_queue-queues bad f (u ∷ cells) zero s t e h = let same : u ≡ s = cc in rw same (rw h refl)
  on_queue-queues bad f (u ∷ cells) (suc c) s t e h =
      rw (on_queue-queues bad f cells c s t e h) refl

  -- After the loop of `scheduled`.
  abbrev after_scan : ℕ → Reply A → Worker A
  after_scan l (item a) = busy a
  after_scan l _ = scanning l

module _ {ℓ} {A S : Type ℓ} (exec : A → S → S) (locks : ℕ → Bool) where
  -- From `start`, the pool gets to where worker `i` is at `x` and the queues are `qs`, all else
  -- being as in `p`.
  abbrev Gets : Pool A S → Pool A S → ℕ → Worker A → List (Queue A) → Type ℓ
  Gets start p i x qs =
      (m : ℕ) × (q : Pool A S) × Run exec start m q
      × (queues q.cells ≡ qs)
      × (q ≡ record p { cells = q.cells; workers = set p.workers i x })

  -- One round more in front.
  Gets-round :
      (start p : Pool A S) (i : ℕ) (x y : Worker A) (cells : List (System A)) (qs : List (Queue A))
      → Gets start (record p { cells = cells; workers = set p.workers i x }) i y qs
      → Gets start p i y qs
  Gets-round start p i x y cells qs (m, q, run, e, f) =
      (m, q, run, e, rw (set-set p.workers i x y) at f)

  abbrev Scans : Pool A S → ℕ → ℕ → (List (Queue A) → Reply A × List (Queue A)) → Pool A S → Type ℓ
  Scans start l i go p =
      Gets start p i (after_scan l (go (queues p.cells)).0) (go (queues p.cells)).1

  -- The rounds behind one that gave no task.
  again-Scans :
      (start p : Pool A S) (l i n : ℕ) (cells : List (System A))
      (go : List (Queue A) → Reply A × List (Queue A))
      → ((q : Pool A S)
          → ((m : ℕ) × Run exec start m q)
          → length q.cells ≡ l
          → get_elem? q.workers i ≡ some (scanning (n + 1))
          → Scans start l i go q)
      → ((m : ℕ) × Run exec start m
            (record p { cells = cells; workers = set p.workers i (scanning (n + 1)) }))
      → length cells ≡ l
      → get_elem? p.workers i ≡ some (scanning n)
      → Gets start p i (after_scan l (go (queues cells)).0) (go (queues cells)).1
  again-Scans start p l i n cells go next run g e =
      Gets-round start p i (scanning (n + 1)) (after_scan l (go (queues cells)).0) cells
        (go (queues cells)).1
        (next (record p { cells = cells; workers = set p.workers i (scanning (n + 1)) }) run g
          (get_elem?-set_self p.workers i (scanning (n + 1))
            (length_of_get_elem? p.workers i (scanning n) e)))

  -- A round of the loop, and the rounds behind it.
  tries-Scans :
      (start p : Pool A S) (l i n : ℕ) (cells : List (System A)) (r : Reply A)
      (go : List (Queue A) → Reply A × List (Queue A))
      → ((q : Pool A S)
          → ((m : ℕ) × Run exec start m q)
          → length q.cells ≡ l
          → get_elem? q.workers i ≡ some (scanning (n + 1))
          → Scans start l i go q)
      → ((m : ℕ) × Run exec start m
            (record p { cells = cells; workers = set p.workers i (after_try n r) }))
      → length cells ≡ l
      → get_elem? p.workers i ≡ some (scanning n)
      → let (r', qs) = next_round go (r, queues cells) in Gets start p i (after_scan l r') qs
  unfolding next_round
  tries-Scans start p l i n cells (item a) go next (m, run) g e = (m, _, run, refl, refl)
  tries-Scans start p l i n cells nullopt go next run g e =
      again-Scans start p l i n cells go next run g e
  tries-Scans start p l i n cells waits go next run g e =
      again-Scans start p l i n cells go next run g e
  tries-Scans start p l i n cells fault go next run g e =
      again-Scans start p l i n cells go next run g e

  scan-Run :
      (start p : Pool A S) (l i k n : ℕ)
      → ((m : ℕ) × Run exec start m p)
      → length p.cells ≡ l
      → n + k ≡ l
      → get_elem? p.workers i ≡ some (scanning n)
      → Scans start l i (scan locks i k n) p
  unfolding scan
  scan-Run start p l i zero n (m, run) g h e =
      let last : n ≡ l = omega (arith, h) in
      (m, p, run, refl, rw (set-get_elem? p.workers i (scanning l) (rw last at e)) refl)
  scan-Run start p l i (suc k) n (m, run) g h e =
      let inside : n < length p.cells = omega (arith, g, h) in
      let (s, f) =
        get_elem?-of_lt p.cells (add_uint i n % length p.cells)
          (mod-lt (add_uint i n) (omega (arith, inside))) in
      rw (length-queues p.cells) (
        rw
          (on_queue-queues fault (try_pop (locks n)) p.cells (add_uint i n % length p.cells) s
            (Threads.after_try_pop (locks n) s) f refl)
          (tries-Scans start p l i n
            (set p.cells (add_uint i n % length p.cells) (Threads.after_try_pop (locks n) s))
            (try_pop (locks n) s.queue).0 (scan locks i k (n + 1))
            (λ q run' g' e'. scan-Run start q l i k (n + 1) run' g' (omega (arith, h)) e')
            (m + 1, goes run (Threads.tries i n (locks n) s e inside f) refl)
            (length-set p.cells _ _ ∙ g) e))

  -- `pop` on the thread's own queue, behind the loop.
  pops-Gets :
      (p q : Pool A S) (m i : ℕ)
      → 0 < length q.cells
      → i < length p.workers
      → Run exec p m q
      → q ≡ record p { cells = q.cells; workers = set p.workers i (scanning (length q.cells)) }
      → let (r, qs) = on_queue fault pop (queues q.cells) (i % length (queues q.cells)) in
        Gets p p i (after_pop r) qs
  unfolding settled
  pops-Gets p q m i h inside run f =
      let (s, g) = get_elem?-of_lt q.cells (i % length q.cells) (mod-lt i h) in
      let t = settled s s.waiters (pop s.queue) in
      let here : get_elem? q.workers i ≡ some (scanning (length q.cells)) =
        ap (λ z. get_elem? z.workers i) f
        ∙ get_elem?-set_self p.workers i (scanning (length q.cells)) inside in
      rw (length-queues q.cells) (
        rw (on_queue-queues fault pop q.cells (i % length q.cells) s t g refl) (
          m + 1,
          record q {
            cells = set q.cells (i % length q.cells) t;
            workers = set q.workers i (after_pop (pop s.queue).0);
          },
          goes run (Threads.pops i s here g) refl,
          refl,
          rw (set-set p.workers i (scanning (length q.cells)) (after_pop (pop s.queue).0)) at (
              ap {A = Pool A S}
                (λ z. record z {
                  cells = set q.cells (i % length q.cells) t;
                  workers = set z.workers i (after_pop (pop s.queue).0);
                })
                f),
        ))

  -- The loop of `scheduled` has ended at a reply.
  own-Gets :
      (p : Pool A S) (i : ℕ) (r : Reply A) (qs : List (Queue A))
      → 0 < length p.cells
      → i < length p.workers
      → Gets p p i (after_scan (length p.cells) r) qs
      → let (r', qs') = pop_own i (r, qs) in Gets p p i (after_pop r') qs'
  unfolding pop_own
  own-Gets p i (item a) qs h k e = e
  own-Gets p i nullopt qs h k (m, q, run, e, f) =
      let same = length-cells-Run exec run in
      rw (sym e) (pops-Gets p q m i (omega (arith, h, same)) k run (rw same f))
  own-Gets p i waits qs h k (m, q, run, e, f) =
      let same = length-cells-Run exec run in
      rw (sym e) (pops-Gets p q m i (omega (arith, h, same)) k run (rw same f))
  own-Gets p i fault qs h k (m, q, run, e, f) =
      let same = length-cells-Run exec run in
      rw (sym e) (pops-Gets p q m i (omega (arith, h, same)) k run (rw same f))

  -- A call of `scheduled` is a run of its thread. From a state of the pool where worker `i` is about
  -- to call `scheduled`, whichever locks its attempts find taken, steps of that worker alone lead to
  -- the state where the queues are as `scheduled` leaves them, the worker goes on with the reply
  -- that `scheduled` gives, and the rest is as before.
  pub scheduled-Run :
      (p : Pool A S) (i : ℕ)
      → 0 < length p.cells
      → get_elem? p.workers i ≡ some (scanning 0)
      → (m : ℕ) × (q : Pool A S) × Run exec p m q
        × (queues q.cells ≡ (scheduled locks i (queues p.cells)).1)
        × (q ≡ record p {
          cells = q.cells;
          workers = set p.workers i (after_pop (scheduled locks i (queues p.cells)).0);
        })
  unfolding scheduled
  scheduled-Run p i h e =
      let out = scan locks i (length p.cells) 0 (queues p.cells) in
      rw (length-queues p.cells) (
        own-Gets p i out.0 out.1 h (length_of_get_elem? p.workers i (scanning 0) e)
          (scan-Run p p (length p.cells) i (length p.cells) 0 (0, stays) refl (omega arith) e))
