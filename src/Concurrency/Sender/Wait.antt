-- ===== src/Concurrency/Sender/Wait.antt =====
-- lib_shared/inc/jar/concurrency/wait.hpp: what the future of `wait(sender)` answers.
use cmake_template.Base.{◌≡◌, refl, List, [], ◌∷◌, ◌++◌, some, true, if◌then◌else◌}
use cmake_template.Core.Contract.{domain_error, Outcome, ok, throws}
use cmake_template.Concurrency.Future.{
  FutureResult, SharedState, engaged, disengaged, fresh, is_canceled, cancel, get, set_value,
  set_exception, broken,
}
use cmake_template.Concurrency.Promise.{Promise, destroy_promise}
use cmake_template.Concurrency.Receiver.Value.{value_receiver}
use cmake_template.Concurrency.Sender.{Task, Sender, wait}
use cmake_template.Concurrency.Sender.Denote.{Computation, Denotes, deliver}

abbrev pub attached : Promise
attached = record { is_attached = true }

-- A scheduler as far as `wait` is concerned: the tasks that it was given, oldest first.
abbrev pub submit : {T W : Type 0} → Task T W → List (Task T W) → List (Task T W)
submit k q = q ++ (k ∷ [])

pub run_tasks : {T W : Type 0} → List (Task T W) → T → W → T × W
run_tasks [] t w = (t, w)
run_tasks (k ∷ ks) t w = let (t', w') = k t w in run_tasks ks t' w'

abbrev pub as_result : {V : Type 0} → Outcome V → Outcome (FutureResult V)
as_result (ok v) = ok (engaged v)
as_result (throws e) = throws e

module _ {V W : Type 0} (s : Sender V W) (m : Computation V W) (d : Denotes s m)
    (moved : V → V) where
  abbrev waited : List (Task (SharedState V) W) × SharedState V
  waited = wait submit s []

  run_waited :
      (t : SharedState V) (w : W)
      → run_tasks waited.0 t w
        ≡ (if is_canceled t then (t, w) else deliver (value_receiver V W) t (m w))
  unfolding run_tasks wait value_receiver
  run_waited t w = d (SharedState V) (value_receiver V W) t w

  delivered :
      (x : Outcome V × W)
      → ((get moved (deliver (value_receiver V W) fresh x).0).0 ≡ some (as_result x.0))
        × ((deliver (value_receiver V W) fresh x).1 ≡ x.1)
  unfolding deliver value_receiver get set_value set_exception
  delivered (ok v, w) = (refl, refl)
  delivered (throws e, w) = (refl, refl)

  destroyed :
      (x : Outcome V × W)
      → (get moved (destroy_promise attached (deliver (value_receiver V W) fresh x).0)).0
        ≡ some (as_result x.0)
  unfolding deliver value_receiver get set_value set_exception broken destroy_promise
  destroyed (ok v, w) = refl
  destroyed (throws e, w) = refl

  -- For a sender that does a computation: once the task that `wait(sender)` submitted has run, the
  -- future has the outcome of the computation, value or exception, and the rest of the program is as
  -- one run of it leaves it.
  pub get-wait :
      (w : W)
      → let (t', w') = run_tasks waited.0 waited.1 w in
        ((get moved t').0 ≡ some (as_result (m w).0)) × (w' ≡ (m w).1)
  unfolding wait is_canceled
  get-wait w = rw (run_waited fresh w) (delivered (m w))

  -- For a sender that does a computation: if the future of `wait(sender)` is canceled before the
  -- task runs, then the task leaves the rest of the program as it was, and the future holds the
  -- canceled result.
  get-wait_canceled :
      (w : W)
      → let (t', w') = run_tasks waited.0 (cancel waited.1).0 w in
        ((get moved t').0 ≡ some (ok disengaged)) × (w' ≡ w)
  unfolding wait is_canceled cancel get
  get-wait_canceled w = rw (run_waited (cancel fresh).0 w) (refl, refl)

  -- For a sender that does a computation: once the promise of `wait(sender)` is destroyed, `get`
  -- answers, with the outcome of the computation if the task has run, and with the exception `broken
  -- promise` if it has been destroyed unrun.
  pub get-destroyed :
      (w : W)
      → ((get moved (destroy_promise attached (run_tasks waited.0 waited.1 w).0)).0
          ≡ some (as_result (m w).0))
        × ((get moved (destroy_promise attached waited.1)).0
            ≡ some (throws (domain_error "broken promise")))
  unfolding wait is_canceled broken get destroy_promise
  get-destroyed w = (rw (run_waited fresh w) (destroyed (m w)), refl)
