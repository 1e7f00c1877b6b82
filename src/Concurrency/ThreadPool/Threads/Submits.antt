-- ===== src/Concurrency/ThreadPool/Threads/Submits.antt =====
-- `schedule` of rr_scheduler.cpp as the steps of one caller in the pool.
use cmake_template.Base.{
  ℕ, zero, suc, ◌+◌, ◌*◌, ◌%◌, ◌<◌, ◌≡◌, refl, sym, ap, subst, Bool, true, false, List, [], ◌∷◌,
  ◌++◌, length, Option, get_elem?, get_elem?-of_lt, get_elem?-set_self, length-set,
  length_of_get_elem?, set, set-set, some, none, add_uint, size_mod, uint_mod, arith,
}
use native.Mathlib.Nat.{mod-lt, mod-eq_of_lt}
use cmake_template.Concurrency.Queue.{Queue, push, try_push}
use cmake_template.Concurrency.Queue.Wakeup.{System, pushed}
use cmake_template.Concurrency.RrScheduler.{schedule, try_schedule, push_own}
use cmake_template.Concurrency.RrScheduler.Access.{on_queue}
use cmake_template.Concurrency.ThreadPool.Threads
use cmake_template.Concurrency.ThreadPool.Threads.{Call, Pool, Step, after_push}
use cmake_template.Concurrency.ThreadPool.Threads.Calls.{queues, length-queues, on_queue-queues}
use cmake_template.Concurrency.ThreadPool.Threads.Progress.{Run, stays, goes}

module _ {ℓ} {A : Type ℓ} where
  get_elem?-last : (xs : List A) (v : A) → get_elem? (xs ++ (v ∷ [])) (length xs) ≡ some v
  get_elem?-last [] v = refl
  get_elem?-last (x ∷ xs) v = get_elem?-last xs v

  set-last : (xs : List A) (v w : A) → set (xs ++ (v ∷ [])) (length xs) w ≡ xs ++ (w ∷ [])
  set-last [] v w = refl
  set-last (x ∷ xs) v w = ap (λ ys. x ∷ ys) (set-last xs v w)

module _ {ℓ} {A S : Type ℓ} (exec : A → S → S) (j : ℕ) where
  -- From `start`, the pool gets to where call `j` is at `x` and the queues are `qs`, all else being
  -- as in `p`.
  abbrev Gets : Pool A S → Pool A S → Option (Call A) → List (Queue A) → Type ℓ
  Gets start p x qs =
      (m : ℕ) × (q : Pool A S) × Run exec start m q
      × (queues q.cells ≡ qs)
      × (q ≡ record p { cells = q.cells; calls = set p.calls j x })

  Gets-round :
      (start p : Pool A S) (x y : Option (Call A)) (cells : List (System A)) (qs : List (Queue A))
      → Gets start (record p { cells = cells; calls = set p.calls j x }) y qs
      → Gets start p y qs
  Gets-round start p x y cells qs (m, q, run, e, f) =
      (m, q, run, e, rw (set-set p.calls j x y) at f)

  module _ (locks : ℕ → Bool) where
    -- The rounds that are left, and the `push` behind them.
    abbrev rest : ℕ → Call A → List (Queue A) → List (Queue A)
    rest k call qs =
        push_own call.index call.task (try_schedule locks call.index k call.tries call.task qs)

    push-Run :
        (start p : Pool A S) (m : ℕ) (call : Call A)
        → 0 < length p.cells
        → Run exec start m p
        → call.tries ≡ length p.cells * 4
        → get_elem? p.calls j ≡ some (some call)
        → Gets start p none
            (on_queue false
              (λ q. (true, push call.task q))
              (queues p.cells)
              (call.index % length (queues p.cells))).1
    push-Run start p m call h run last e =
        let (s, f) = get_elem?-of_lt p.cells (call.index % length p.cells) (mod-lt call.index h) in
        rw (length-queues p.cells) (
          rw
            (on_queue-queues false (λ q. (true, push call.task q)) p.cells
              (call.index % length p.cells) s
              (record s { queue = push call.task s.queue; ones = s.ones + 1 }) f refl)
            (m + 1, _, goes run (Threads.pushes j call s e last f) refl, refl, refl))

    -- What `schedule` leaves, from the answer of one attempt on.
    abbrev after : ℕ → Call A → Bool × List (Queue A) → List (Queue A)
    after k call answer = push_own call.index call.task (elim answer.0 [
      | true ↦ (true, answer.1)
      | false ↦ try_schedule locks call.index k (call.tries + 1) call.task answer.1
    ])

    -- A round of the loop, and the rounds behind it.
    try_push-Run :
        (start p : Pool A S) (k : ℕ) (call : Call A) (cells : List (System A)) (done : Bool)
        → ((q : Pool A S)
            → ((m : ℕ) × Run exec start m q)
            → length q.cells ≡ length p.cells
            → get_elem? q.calls j ≡ some (after_push call false)
            → Gets start q none (rest k (record call { tries = call.tries + 1 }) (queues q.cells)))
        → ((m : ℕ) × Run exec start m
              (record p { cells = cells; calls = set p.calls j (after_push call done) }))
        → length cells ≡ length p.cells
        → get_elem? p.calls j ≡ some (some call)
        → Gets start p none (after k call (done, queues cells))
    unfolding push_own
    try_push-Run start p k call cells true next (m, run) g e = (m, _, run, refl, refl)
    try_push-Run start p k call cells false next run g e =
        Gets-round start p (after_push call false) none cells _ (
          next (record p { cells = cells; calls = set p.calls j (after_push call false) }) run g
            (get_elem?-set_self p.calls j (after_push call false)
              (length_of_get_elem? p.calls j (some call) e)))

    schedule_rest-Run :
        (start p : Pool A S) (k : ℕ) (call : Call A)
        → 0 < length p.cells
        → ((m : ℕ) × Run exec start m p)
        → call.tries + k ≡ length p.cells * 4
        → get_elem? p.calls j ≡ some (some call)
        → Gets start p none (rest k call (queues p.cells))
    unfolding try_schedule push_own pushed
    schedule_rest-Run start p zero call h (m, run) last e =
        push-Run start p m call h run (omega (arith, last)) e
    schedule_rest-Run start p (suc k) call h (m, run) last e =
        let c = add_uint call.index call.tries % length p.cells in
        let (s, f) = get_elem?-of_lt p.cells c (mod-lt (add_uint call.index call.tries) h) in
        let lock = locks call.tries in
        let t = pushed s (try_push lock call.task s.queue) in
        let answer : on_queue false (try_push lock call.task) (queues p.cells)
              (add_uint call.index call.tries % length (queues p.cells))
            ≡ ((try_push lock call.task s.queue).0, queues (set p.cells c t)) =
          rw (length-queues p.cells)
            (on_queue-queues false (try_push lock call.task) p.cells c s t f refl) in
        subst (λ z. Gets start p none (after k call z)) (sym answer)
          (try_push-Run start p k call (set p.cells c t) (try_push lock call.task s.queue).0
            (λ q run' g' e'.
              schedule_rest-Run start q k (record call { tries = call.tries + 1 })
                (omega (arith, h, g')) run' (omega (arith, last, g')) e')
            (m + 1, goes run (Threads.try_pushes j call lock s e (omega (arith, last)) f) refl)
            (length-set p.cells c t) e)

module _ {ℓ} {A S : Type ℓ} where
  -- The caller has its index.
  abbrev pub begun : Pool A S → A → Pool A S
  begun p a = record p {
    push_index = add_uint p.push_index 1;
    calls = p.calls ++ (some (record { task = a; index = p.push_index; tries = 0 }) ∷ []);
    submitted = p.submitted ++ (a ∷ []);
  }

module _ {ℓ} {A S : Type ℓ} (exec : A → S → S) (locks : ℕ → Bool) where
  -- A call of `schedule` is a run of its caller. In a pool of at least one and less than 2 ^ 30
  -- queues, whichever locks the attempts of the call find taken: once the call has its index, its
  -- steps alone lead to the state where the queues are as `schedule` leaves them, the call has
  -- returned, and the rest is as before.
  pub schedule-Run :
      (p : Pool A S) (a : A)
      → 0 < length p.cells
      → length p.cells * 4 < uint_mod
      → (m : ℕ) × (q : Pool A S) × Run exec (begun p a) m q
        × (queues q.cells
            ≡ (schedule locks a (record {
              queues = queues p.cells;
              push_index = p.push_index;
              pop_index = 0;
            })).queues)
        × (q ≡ record (begun p a) { cells = q.cells; calls = p.calls ++ (none ∷ []) })
  unfolding schedule
  schedule-Run p a h k =
      let small : length p.cells * 4 < size_mod = omega (arith, k) in
      rw (length-queues p.cells, mod-eq_of_lt small)
        (let call : Call A = record { task = a; index = p.push_index; tries = 0 } in
          let (m, q, run, e, f) =
            schedule_rest-Run exec (length p.calls) locks (begun p a) (begun p a)
              (length p.cells * 4) call h (0, stays) (omega arith)
              (get_elem?-last p.calls (some call)) in
          (m, q, run, e, rw (set-last p.calls (some call) none) at f))
