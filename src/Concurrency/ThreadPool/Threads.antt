-- ===== src/Concurrency/ThreadPool/Threads.antt =====
-- thread_pool.hpp over rr_scheduler.cpp under threads, down to the critical sections of the queues:
-- the loops of `schedule` and of `scheduled` are taken apart into their attempts, and the constructor
-- and the destructor of the pool into their rounds. All of them interleave.
pub mod Cells
pub mod Sleepers
pub mod Phases
pub mod Growth
pub mod Accounts
pub mod Rest
pub mod Costs
pub mod Progress
pub mod Loops
pub mod Moves
pub mod Liveness
pub mod Always
pub mod Escapes
pub mod Spec
pub mod World
pub mod Places
pub mod InTurn
pub mod Sequential
pub mod Calls
pub mod Takes
pub mod Submits
pub mod Lands
pub mod Future
use cmake_template.Base.{
  ℕ, ◌+◌, ◌-◌, ◌*◌, ◌%◌, ◌<◌, ◌≡◌, Bool, true, false, List, [], ◌∷◌, ◌++◌, Option, none, some,
  length, get_elem?, set, replicate, add_uint,
}
use cmake_template.Concurrency.Condition.{notify_one, notify_all, run_woken}
use cmake_template.Concurrency.Queue.{
  Queue, Reply, item, waits, pop, resume_pop, try_pop, push, try_push, clear,
}
use cmake_template.Concurrency.Queue.Wakeup.{System, idle, settled, pushed}

-- A thread in `run`, once it has its thread index: in `scheduled` before the attempt `n` of the loop
-- (before `pop`, when the attempts are over), asleep in `pop`, executing a task, or out of the loop.
pub data Worker {ℓ} (A : Type ℓ) : Type ℓ where
  scanning : (n : ℕ) → Worker A
  asleep exited : Worker A
  busy : A → Worker A

-- A call of `schedule` with its index, after `tries` attempts.
pub record Call {ℓ} (A : Type ℓ) : Type ℓ where
  pub task : A
  pub index : ℕ
  pub tries : ℕ

-- The constructor starts threads; then the pool runs; `join` clears the queues, of which `closing c`
-- has cleared the first `c`, and waits for the threads.
pub data Phase : Type 0 where
  constructing running : Phase
  closing : (c : ℕ) → Phase

-- `cells` are the queues of `m_task_queue`, each with its condition variable. Worker `i` is the thread
-- whose index is `i`; `spawned` counts the threads started, of which some may not have an index yet.
-- A call that has returned is `none`. `world` is the state that the tasks change; the last three
-- fields are the history: the tasks scheduled, executed, and destroyed by `clear`.
pub record Pool {ℓ} (A S : Type ℓ) : Type ℓ where
  pub cells : List (System A)
  pub push_index : ℕ
  pub spawned : ℕ
  pub workers : List (Worker A)
  pub phase : Phase
  pub calls : List (Option (Call A))
  pub world : S
  pub submitted : List A
  pub executed : List A
  pub dropped : List A

module _ {ℓ} {A : Type ℓ} where
  -- After `try_pop` in attempt `n`.
  abbrev pub after_try : (n : ℕ) → Reply A → Worker A
  after_try n (item a) = busy a
  after_try n _ = scanning (n + 1)

  -- After `pop`.
  abbrev pub after_pop : Reply A → Worker A
  after_pop (item a) = busy a
  after_pop waits = asleep
  after_pop _ = exited

  -- After `try_push`.
  abbrev pub after_push : Call A → Bool → Option (Call A)
  after_push call true = none
  after_push call false = some (record call { tries = call.tries + 1 })

  abbrev pub after_try_pop : (locked : Bool) → System A → System A
  after_try_pop locked s = record s { queue = (try_pop locked s.queue).1 }

  abbrev pub after_resume : System A → System A
  after_resume s = settled s (run_woken s.waiters) (resume_pop s.queue)

module _ {ℓ} {A S : Type ℓ} (exec : A → S → S) where
  pub data Step (p : Pool A S) : Pool A S → Type ℓ where
    spawns :
        p.phase ≡ constructing
        → p.spawned < length p.cells
        → Step p (record p { spawned = p.spawned + 1 })
    -- The creation of a thread throws: the constructor joins those that it has started.
    spawn_fails :
        p.phase ≡ constructing
        → p.spawned < length p.cells
        → Step p (record p { phase = closing 0 })
    constructs :
        p.phase ≡ constructing → p.spawned ≡ length p.cells → Step p (record p { phase = running })
    -- A thread takes its index in its first call of `scheduled`.
    enters :
        length p.workers < p.spawned
        → Step p (record p { workers = p.workers ++ (scanning 0 ∷ []) })
    tries :
        (i n : ℕ) (locked : Bool) (s : System A)
        → get_elem? p.workers i ≡ some (scanning n)
        → n < length p.cells
        → get_elem? p.cells (add_uint i n % length p.cells) ≡ some s
        → Step p (record p {
          cells = set p.cells (add_uint i n % length p.cells) (after_try_pop locked s);
          workers = set p.workers i (after_try n (try_pop locked s.queue).0);
        })
    pops :
        (i : ℕ) (s : System A)
        → get_elem? p.workers i ≡ some (scanning (length p.cells))
        → get_elem? p.cells (i % length p.cells) ≡ some s
        → Step p (record p {
          cells = set p.cells (i % length p.cells) (settled s s.waiters (pop s.queue));
          workers = set p.workers i (after_pop (pop s.queue).0);
        })
    wakes :
        (i : ℕ) (s : System A)
        → get_elem? p.workers i ≡ some asleep
        → get_elem? p.cells (i % length p.cells) ≡ some s
        → 0 < s.waiters.woken
        → Step p (record p {
          cells = set p.cells (i % length p.cells) (after_resume s);
          workers = set p.workers i (after_pop (resume_pop s.queue).0);
        })
    finishes :
        (i : ℕ) (a : A)
        → get_elem? p.workers i ≡ some (busy a)
        → Step p (record p {
          workers = set p.workers i (scanning 0);
          world = exec a p.world;
          executed = p.executed ++ (a ∷ []);
        })
    begins :
        (a : A)
        → Step p (record p {
          push_index = add_uint p.push_index 1;
          calls = p.calls ++ (some (record { task = a; index = p.push_index; tries = 0 }) ∷ []);
          submitted = p.submitted ++ (a ∷ []);
        })
    try_pushes :
        (j : ℕ) (call : Call A) (locked : Bool) (s : System A)
        → get_elem? p.calls j ≡ some (some call)
        → call.tries < length p.cells * 4
        → get_elem? p.cells (add_uint call.index call.tries % length p.cells) ≡ some s
        → Step p (record p {
          cells =
              set p.cells
                (add_uint call.index call.tries % length p.cells)
                (pushed s (try_push locked call.task s.queue));
          calls = set p.calls j (after_push call (try_push locked call.task s.queue).0);
        })
    pushes :
        (j : ℕ) (call : Call A) (s : System A)
        → get_elem? p.calls j ≡ some (some call)
        → call.tries ≡ length p.cells * 4
        → get_elem? p.cells (call.index % length p.cells) ≡ some s
        → Step p (record p {
          cells =
              set p.cells
                (call.index % length p.cells)
                (record s { queue = push call.task s.queue; ones = s.ones + 1 });
          calls = set p.calls j none;
        })
    notifies :
        (c : ℕ) (s : System A)
        → get_elem? p.cells c ≡ some s
        → 0 < s.ones
        → Step p (record p {
          cells = set p.cells c (record s { waiters = notify_one s.waiters; ones = s.ones - 1 });
        })
    notifies_all :
        (c : ℕ) (s : System A)
        → get_elem? p.cells c ≡ some s
        → 0 < s.alls
        → Step p (record p {
          cells = set p.cells c (record s { waiters = notify_all s.waiters; alls = s.alls - 1 });
        })
    wakes_spuriously :
        (c : ℕ) (s : System A)
        → get_elem? p.cells c ≡ some s
        → Step p (record p { cells = set p.cells c (record s { waiters = notify_one s.waiters }) })
    -- The destructor begins.
    destroys : p.phase ≡ running → Step p (record p { phase = closing 0 })
    clears :
        (c : ℕ) (s : System A)
        → p.phase ≡ closing c
        → get_elem? p.cells c ≡ some s
        → Step p (record p {
          cells = set p.cells c (record s { queue = clear s.queue; alls = s.alls + 1 });
          phase = closing (c + 1);
          dropped = p.dropped ++ s.queue.container;
        })

  module _ (n : ℕ) (world : S) where
    -- A pool of `n` threads, before the first is started.
    unfoldable pub begin : Pool A S
    begin = record {
      cells = replicate n idle;
      push_index = 0;
      spawned = 0;
      workers = [];
      phase = constructing;
      calls = [];
      world = world;
      submitted = [];
      executed = [];
      dropped = [];
    }

    pub data Reach : Pool A S → Type ℓ where
      start : Reach begin
      later : {p q : Pool A S} → Reach p → Step p q → Reach q
