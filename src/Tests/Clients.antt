-- ===== src/Tests/Clients.antt =====
-- One call of `wait` on a pool of one thread, whose future a client cancels while its function runs.
use cmake_template.Base.{
  weigh, ℕ, ◌+◌, ◌≤◌, ◌≡◌, ◌⊎◌, refl, false, true, [], ◌∷◌, none, some, arith,
}
use cmake_template.Core.Contract.{Outcome, ok, throws, domain_error}
use cmake_template.Concurrency.Promise.{destroy_promise}
use cmake_template.Concurrency.Sender.Wait.{attached}
use cmake_template.Concurrency.Future.{
  FutureResult, disengaged, get, cancel, is_canceled, set_value,
}
use cmake_template.Concurrency.Receiver.Value.{value_receiver}
use cmake_template.Concurrency.Sender.{receiver_adapter}
use cmake_template.Concurrency.Queue.{new, pop, try_pop, try_push}
use cmake_template.Concurrency.Queue.Wakeup.{System, settled, pushed}
use cmake_template.Concurrency.Sender.Chain.{Chain, scheduled, followed, complete_task}
use cmake_template.Concurrency.ThreadPool.Threads
use cmake_template.Concurrency.ThreadPool.Threads.{Pool, scanning, asleep, running}
use cmake_template.Concurrency.ThreadPool.Threads.Future.{Job, waited, at_first, is_waited}
use cmake_template.Concurrency.ThreadPool.Threads.Costs.{steps_left}
use cmake_template.Concurrency.ThreadPool.Clients.{
  Program, note, effect, Reach, start, later, Run, stays, goes, meanwhile, Move, works, ends, asks,
  cancels, canceled, ended,
}
use cmake_template.Concurrency.ThreadPool.Clients.History.{replay, decision}
use cmake_template.Concurrency.ThreadPool.Clients.Answers.{
  Decides, get-decision, get-destroyed_decision,
}

-- `then(schedule(...), f)`, where `f` counts its calls and returns 7.
abbrev counting : Chain ℕ ℕ
counting = followed scheduled (λ u w. (ok 7, w + 1))

abbrev chains : ℕ → Chain ℕ ℕ
chains i = counting

abbrev cell : ℕ → System (Job ℕ)
cell sleeping = record {
  queue = record { is_cancelled = false; container = [] };
  waiters = record { sleeping = sleeping; woken = 0 };
  ones = 0;
  alls = 0;
}

-- The task is scheduled, and its caller has not notified yet.
abbrev scheduled_pool : Pool (Job ℕ) (Unit {0})
scheduled_pool = record {
  cells =
      record {
        queue = record { is_cancelled = false; container = waited 0 ∷ [] };
        waiters = record { sleeping = 0; woken = 0 };
        ones = 1;
        alls = 0;
      }
      ∷ [];
  push_index = 1;
  spawned = 1;
  workers = scanning 0 ∷ [];
  phase = running;
  calls = none ∷ [];
  world = tt;
  submitted = waited 0 ∷ [];
  executed = [];
  dropped = [];
}

abbrev before : Program ℕ ℕ
before = record { pool = scheduled_pool; asked = λ k. none; world = at_first 0; history = [] }

before-Reach : Reach chains 1 0 before
unfolding Threads.begin new try_push pushed
before-Reach =
    later
      (later
        (later
          (later (later start (works (Threads.spawns refl (omega arith)) refl))
            (works (Threads.constructs refl refl) refl))
          (works (Threads.enters (omega arith)) refl))
        (works (Threads.begins (waited 0)) refl))
      (works (Threads.try_pushes 0 _ true _ refl (omega arith) refl) refl)

-- The task has asked, the client has canceled, the task has ended, and the thread sleeps.
abbrev after : Program ℕ ℕ
after = record {
  pool = record scheduled_pool {
    cells = cell 1 ∷ [];
    workers = asleep ∷ [];
    executed = waited 0 ∷ [];
  };
  asked = note (note (λ k. none) 0 (some (0, false))) 0 none;
  world = replay chains (canceled 0 ∷ ended 0 false ∷ []) (at_first 0);
  history = canceled 0 ∷ ended 0 false ∷ [];
}

before-Run : Run chains before 5 after
unfolding try_pop pop settled value_receiver receiver_adapter is_canceled
before-Run =
    goes
      (goes
        (goes
          (meanwhile
            (meanwhile
              (goes (goes stays (works (Threads.notifies 0 _ refl (omega arith)) refl) refl)
                (works (Threads.tries 0 0 true _ refl (omega arith) refl) refl) refl)
              (asks 0 0 refl refl))
            (cancels 0))
          (ends 0 0 false refl refl) refl)
        (works (Threads.tries 0 0 true _ refl (omega arith) refl) refl) refl)
      (works (Threads.pops 0 _ refl refl) refl) refl

get-decision_example :
    (5 ≤ steps_left 1 scheduled_pool)
    × (after.world ≡ replay chains (canceled 0 ∷ ended 0 false ∷ []) (at_first 0))
    × (Move chains after ⊎ Decides chains (λ v. v) 0 0 after)
get-decision_example =
    get-decision chains (λ v. v) 0 (omega arith) before-Reach refl (omega arith) before-Run

get-destroyed_decision_example :
    ((x : Outcome (FutureResult ℕ)) × (decision chains 0 [] (at_first 0) ≡ some x)
      × ((get (λ v. v) (destroy_promise attached (before.world.0 0))).0 ≡ some x))
    ⊎ ((decision chains 0 [] (at_first 0) ≡ none)
        × (weigh (is_waited 0) before.pool.executed ≡ 0)
        × ((get (λ v. v) (destroy_promise attached (before.world.0 0))).0
            ≡ some (throws (domain_error "broken promise"))))
get-destroyed_decision_example = get-destroyed_decision chains (λ v. v) 0 before-Reach

-- The function has run, but the cancellation came before its value.
canceled_meanwhile :
    ((get (λ v. v) (after.world.0 0)).0 ≡ some (ok disengaged)) × (after.world.1 ≡ 1)
unfolding effect complete_task value_receiver receiver_adapter get cancel set_value
canceled_meanwhile = (refl, refl)
