-- ===== src/Concurrency/ThreadPool/Threads/Spec.antt =====
-- What a thread pool promises, without queues, threads and order: a bag of tasks that are executed.
use mathlib.Core.Quot
use mathlib.Core.Quot.{Quot, Quot-set}
use cmake_template.Base.{
  weigh, weigh-append, ℕ, ◌+◌, ◌≡◌, refl, sym, ap, ◌∙◌, subst, List, [], ◌∷◌, ◌++◌, Option, some,
  none, Bool, true, false, arith,
}
use cmake_template.Concurrency.ThreadPool.Threads
use cmake_template.Concurrency.ThreadPool.Threads.{
  Worker, scanning, asleep, exited, busy, Call, Phase, closing, Pool, Step, Reach,
}
use cmake_template.Concurrency.ThreadPool.Threads.Accounts.{
  weigh_worker, weigh_call, weigh_cell, tasks_accounted,
}

-- The same tasks, each as often.
abbrev pub SameTasks {ℓ} : {A : Type ℓ} → List A → List A → Type ℓ
SameTasks {A = A} xs ys = (w : A → ℕ) → weigh w xs ≡ weigh w ys

abbrev pub Bag {ℓ} : Type ℓ → Type ℓ
Bag A = Quot (SameTasks {A = A})

module _ {ℓ} {A : Type ℓ} where
  abbrev pub bag : List A → Bag A
  bag = Quot.mk

  unfoldable pub put : A → Bag A → Bag A
  put a = Quot.lift Quot-set (λ xs. bag (a ∷ xs)) λ xs ys h. Quot.sound λ w. omega (arith, h w)

  unfoldable pub put_all : List A → Bag A → Bag A
  put_all zs =
      Quot.lift Quot-set (λ xs. bag (zs ++ xs))
        λ xs ys h. Quot.sound λ w. omega (arith, h w, weigh-append w zs xs, weigh-append w zs ys)

  -- The tasks that wait or are under way.
  abbrev held : Worker A → List A
  held (busy a) = a ∷ []
  held _ = []

  abbrev carried : Option (Call A) → List A
  carried none = []
  carried (some call) = call.task ∷ []

  abbrev gather {κ} : {B : Type κ} → (B → List A) → List B → List A
  gather f [] = []
  gather f (x ∷ xs) = f x ++ gather f xs

  gather-weight {κ} :
      {B : Type κ} (w : A → ℕ) (f : B → List A) (v : B → ℕ)
      → ((x : B) → weigh w (f x) ≡ v x)
      → (xs : List B) → weigh w (gather f xs) ≡ weigh v xs
  gather-weight w f v h [] = refl
  gather-weight w f v h (x ∷ xs) =
      omega (arith, weigh-append w (f x) (gather f xs), h x, gather-weight w f v h xs)

  held-weight : (w : A → ℕ) (x : Worker A) → weigh w (held x) ≡ weigh_worker w x
  held-weight w (busy a) = omega arith
  held-weight w (scanning n) = refl
  held-weight w asleep = refl
  held-weight w exited = refl

  carried-weight : (w : A → ℕ) (x : Option (Call A)) → weigh w (carried x) ≡ weigh_call w x
  carried-weight w none = refl
  carried-weight w (some call) = omega arith

-- A pool as its users see it.
pub record Spec {ℓ} (A S : Type ℓ) : Type ℓ where
  pub tasks : Bag A
  pub state : S
  pub is_closing : Bool

-- What a step of the pool is to its users: nothing; a call of `schedule`; a task that ends; a thread
-- that cannot be started, or the beginning of the destructor; a queue that `clear` empties.
pub data Event {ℓ} (A : Type ℓ) : Type ℓ where
  internal close_begins : Event A
  called ended : A → Event A
  cleared : List A → Event A

abbrev pub is_closed : Phase → Bool
is_closed (closing c) = true
is_closed _ = false

module _ {ℓ} {A S : Type ℓ} where
  abbrev pub pending : Pool A S → List A
  pending p =
      gather held p.workers ++ (gather carried p.calls ++ gather (λ s. s.queue.container) p.cells)

  abbrev pub abstract_pool : Pool A S → Spec A S
  abstract_pool p = record {
    tasks = bag (pending p);
    state = p.world;
    is_closing = is_closed p.phase;
  }

module _ {ℓ} {A S : Type ℓ} (exec : A → S → S) where
  -- The moves of the specification, each under its event. A call of `schedule` puts its task into the
  -- bag; a task that ends was in the bag, leaves it and changes the state; closing is for good; the
  -- tasks that `clear` destroys were in the bag, and leave it, once the pool closes; and nothing else
  -- changes anything.
  pub data Act (s : Spec A S) : Event A → Spec A S → Type ℓ where
    rests : Act s internal s
    schedules : (a : A) → Act s (called a) (record s { tasks = put a s.tasks })
    executes :
        (a : A) (rest : Bag A)
        → put a rest ≡ s.tasks
        → Act s (ended a) (record s { tasks = rest; state = exec a s.state })
    closes : s.is_closing ≡ false → Act s close_begins (record s { is_closing = true })
    clears :
        (gone : List A) (rest : Bag A)
        → s.is_closing ≡ true
        → put_all gone rest ≡ s.tasks
        → Act s (cleared gone) (record s { tasks = rest })

  abbrev pub event : {p q : Pool A S} → Step exec p q → Event A
  event (Threads.begins a) = called a
  event (Threads.finishes i a e) = ended a
  event (Threads.spawn_fails f k) = close_begins
  event (Threads.destroys f) = close_begins
  event (Threads.clears c s f e) = cleared s.queue.container
  event _ = internal

  module _ {n : ℕ} {world : S} where
    pending-weight :
        {p : Pool A S} (w : A → ℕ)
        → Reach exec n world p
        → weigh w p.executed + weigh w (pending p) + weigh w p.dropped ≡ weigh w p.submitted
    pending-weight {p} w r = omega (
      arith,
      tasks_accounted exec w r,
      weigh-append w (gather held p.workers)
          (gather carried p.calls ++ gather (λ s. s.queue.container) p.cells),
      weigh-append w (gather carried p.calls) (gather (λ s. s.queue.container) p.cells),
      gather-weight w held (weigh_worker w) (held-weight w) p.workers,
      gather-weight w carried (weigh_call w) (carried-weight w) p.calls,
      gather-weight w (λ s. s.queue.container) (weigh_cell w) (λ s. refl) p.cells,
    )

    -- A step that moves tasks only between callers, queues and workers.
    inside :
        {p q : Pool A S}
        → Reach exec n world p
        → Reach exec n world q
        → q.submitted ≡ p.submitted
        → q.executed ≡ p.executed
        → q.dropped ≡ p.dropped
        → q.world ≡ p.world
        → is_closed q.phase ≡ is_closed p.phase
        → Act (abstract_pool p) internal (abstract_pool q)
    inside {p} {q} r t e f g h k =
        let same : bag (pending q) ≡ bag (pending p) = Quot.sound λ w. omega (
          arith,
          pending-weight w r,
          pending-weight w t,
          ap (weigh w) e,
          ap (weigh w) f,
          ap (weigh w) g,
        ) in
        let back : abstract_pool q ≡ abstract_pool p =
          λ i. record { tasks = same i; state = h i; is_closing = k i } in
        subst (Act (abstract_pool p) internal) (sym back) rests

    -- A step that destroys tasks.
    destroyed :
        {p q : Pool A S}
        → Reach exec n world p
        → Reach exec n world q
        → (gone : List A) → q.submitted ≡ p.submitted
        → q.executed ≡ p.executed
        → q.dropped ≡ p.dropped ++ gone
        → q.world ≡ p.world
        → is_closed p.phase ≡ true
        → is_closed q.phase ≡ true
        → Act (abstract_pool p) (cleared gone) (abstract_pool q)
    unfolding put_all
    destroyed {p} {q} r t gone e f g h k l =
        let back : abstract_pool q
            ≡ record { tasks = bag (pending q); state = p.world; is_closing = is_closed p.phase } =
          λ i. record { tasks = bag (pending q); state = h i; is_closing = (l ∙ sym k) i } in
        subst (Act (abstract_pool p) (cleared gone)) (sym back) (
          clears gone (bag (pending q)) k (
            Quot.sound λ w. omega (
              arith,
              pending-weight w r,
              pending-weight w t,
              ap (weigh w) e,
              ap (weigh w) f,
              ap (weigh w) g,
              weigh-append w p.dropped gone,
              weigh-append w gone (pending q),
            )))

    -- The pool does what the specification allows. In every reachable state of a pool, every step of
    -- any of its threads does to the bag of pending tasks, to the state of the program and to
    -- whether the pool closes what the event of the step says, by `Act`: a call of `schedule` puts its
    -- task into the bag; the end of a task takes that task out of the bag and executes it; the
    -- destructor, or a thread that cannot be started, closes a pool that was not closing; `clear`,
    -- once the pool closes, takes what it destroys out of the bag; every other step changes nothing.
    pub Step-Act :
        {p q : Pool A S}
        → Reach exec n world p
        → (st : Step exec p q) → Act (abstract_pool p) (event st) (abstract_pool q)
    unfolding put
    Step-Act {p} {q} r st = act st (Threads.later r st)
      where
        act :
            {q : Pool A S}
            → (st : Step exec p q) → Reach exec n world q
            → Act (abstract_pool p) (event st) (abstract_pool q)
        act (Threads.spawns f k) t = rests
        act (Threads.spawn_fails f k) t = closes (rw f refl)
        act (Threads.constructs f k) t = inside r t refl refl refl refl (rw f refl)
        act (Threads.finishes i a e) t = executes a _ (
            Quot.sound λ w.
              omega
                (arith, pending-weight w r, pending-weight w t, weigh-append w p.executed (a ∷ [])))
        act (Threads.begins a) t =
            subst
              (λ b.
                Act (abstract_pool p) (called a)
                  (record { tasks = b; state = p.world; is_closing = is_closed p.phase }))
              (Quot.sound λ w. omega (
                arith,
                pending-weight w r,
                pending-weight w t,
                weigh-append w p.submitted (a ∷ []),
              ))
              (schedules a)
        act (Threads.destroys f) t = closes (rw f refl)
        act (Threads.clears c s f e) t =
            destroyed r t s.queue.container refl refl refl refl (rw f refl) refl
        act _ t = inside r t refl refl refl refl refl
