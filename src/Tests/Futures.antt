-- ===== src/Tests/Futures.antt =====
-- future.hpp and callback_receiver.hpp at concrete values.
use cmake_template.Base.{◌≢◌, ◌⊎◌, false, arith, ℕ, ◌+◌, ◌≡◌, refl, List, [], ◌∷◌, none, some}
use cmake_template.Core.Contract.{Exception, runtime_error, bad_variant_access, ok, throws}
use cmake_template.Concurrency.Condition.{nobody}
use cmake_template.Concurrency.Future.{
  Status, result, engaged, fresh, get, is_canceled, set_value, broken,
}
use cmake_template.Concurrency.Future.Resolve.{
  Resolution, sets_value, cancels, breaks, resolve_all, resolve, answer, cancels?,
  first_resolution_wins,
}
use cmake_template.Concurrency.Future.Threads
use cmake_template.Concurrency.Future.Threads.{
  System, Reach, start, later, free, IsStuck, settled_answer, get-winner, resolution_races,
}
use cmake_template.Concurrency.Promise.{
  move_promise, move_assign_promise, promise_set_value, destroy_promise,
}
use cmake_template.Concurrency.Promise.Handles
use cmake_template.Concurrency.Promise.Handles.{get-abandoned}
use cmake_template.Concurrency.Receiver.Callback
use cmake_template.Concurrency.Receiver.Callback.{
  CompleteHandler, unary, make_callback_receiver, Signal, signals, handled, one_handler,
}

-- What is left of a number that was moved from.
abbrev same : ℕ → ℕ
same n = n

abbrev later_calls : List (Resolution ℕ)
later_calls = cancels ∷ sets_value 8 ∷ breaks ∷ []

first_resolution_wins_example :
    ((get same (resolve_all (sets_value 7 ∷ later_calls) fresh).0).0 ≡ some (answer (sets_value 7)))
    × ((resolve_all (sets_value 7 ∷ later_calls) fresh).1 ≡ 1)
    × (is_canceled (resolve_all (sets_value 7 ∷ later_calls) fresh).0
        ≡ cancels? {V = ℕ} (sets_value 7))
first_resolution_wins_example = first_resolution_wins same (sets_value 7) later_calls

abbrev written : System ℕ
written = record {
  shared = record { status = Status.value; stored = result (engaged 7) };
  pending = none;
  notifies = 1;
  holder = free;
  waiters = nobody;
  winner = some (sets_value 7);
}

written-Reach : Reach written
unfolding resolve set_value
written-Reach =
    later (later start (Threads.claims (sets_value 7) refl))
      (Threads.writes (result (engaged 7)) refl)

get-winner_example : (get same written.shared).0 ≡ settled_answer written.winner
get-winner_example = get-winner same written-Reach refl

resolution_races_example :
    ((s : System ℕ) × Reach s
      × (s.winner ≡ some (sets_value 7))
      × ((get same s.shared).0 ≡ some (throws bad_variant_access)))
    × ((s : System ℕ) × Reach s × (s.winner ≡ some (sets_value 7)) × IsStuck s)
resolution_races_example = resolution_races same (sets_value 7) (λ e. cc)

-- Handlers that count: values by 1, failures by 10, cancellations by 100.
abbrev counts : CompleteHandler ℕ
counts = unary (λ v w. (ok tt, w + v))

abbrev tens : Exception → ℕ → ℕ
tens e w = w + 10

abbrev hundreds : ℕ → ℕ
hundreds w = w + 100

abbrev later_signals : List (Signal ℕ)
later_signals = Callback.cancels ∷ Callback.completes 4 ∷ []

one_handler_example :
    let (h, s) = make_callback_receiver counts tens hundreds in
    signals h (Callback.fails (runtime_error "no") ∷ later_signals) (s, 0)
    ≡ handled h (Callback.fails (runtime_error "no")) 0
one_handler_example =
    one_handler counts tens hundreds (Callback.fails (runtime_error "no")) later_signals 0

-- A promise that was moved, given a value by its new handle, and destroyed with both handles.
abbrev destroyed : Handles.Program ℕ
destroyed = record {
  handles = none ∷ none ∷ [];
  shared = record { status = Status.value; stored = result (engaged 7) };
}

destroyed-Reach : Handles.Reach destroyed
unfolding Handles.initial move_promise promise_set_value set_value destroy_promise broken
destroyed-Reach =
    Handles.later
      (Handles.later
        (Handles.later (Handles.later Handles.start (Handles.moves 0 _ refl))
          (Handles.sets_value 1 _ 7 _ refl refl))
        (Handles.destroys 0 _ refl))
      (Handles.destroys 1 _ refl)

get-abandoned_example : ((get same destroyed.shared).0 ≢ none) ⊎ Handles.Overwritten destroyed-Reach
get-abandoned_example = get-abandoned same destroyed-Reach refl

-- The handle that was moved from is assigned to the one that has the state: nobody is left to resolve
-- it, and `get` waits.
abbrev forgotten : Handles.Program ℕ
forgotten = record {
  handles = some (record { is_attached = false }) ∷ some (record { is_attached = false }) ∷ [];
  shared = fresh;
}

forgotten-Reach : Handles.Reach forgotten
unfolding Handles.initial move_promise move_assign_promise
forgotten-Reach =
    Handles.later (Handles.later Handles.start (Handles.moves 0 _ refl))
      (Handles.assigns 1 0 _ _ (omega arith) refl refl)

forgotten_waits : (get same forgotten.shared).0 ≡ none
unfolding get
forgotten_waits = refl
