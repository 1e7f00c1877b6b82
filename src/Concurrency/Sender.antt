-- ===== src/Concurrency/Sender.antt =====
-- lib_shared/inc/jar/concurrency/{schedule,then,start,wait}.hpp and details/sender_adapter.hpp: what
-- a chain of senders makes of a receiver is one task for a scheduler.
pub mod Denote
pub mod Wait
pub mod Chain
use cmake_template.Base.{Bool, if◌then◌else◌}
use cmake_template.Core.Contract.{Exception, Outcome, ok, throws}
use cmake_template.Concurrency.Receiver.{Receiver}
use cmake_template.Concurrency.Receiver.Value.{value_receiver}
use cmake_template.Concurrency.Future.{SharedState, fresh}

-- A task, once it is run: the receiver's state and the rest of the program.
abbrev pub Task : Type 0 → Type 0 → Type 0
Task T W = T → W → T × W

-- The operation state that `connect` returns; `start` hands its task to the scheduler.
pub record OperationState (T W : Type 0) : Type 0 where
  pub task : Task T W

-- A sender of values `V`: its `connect`.
abbrev pub Sender : Type 0 → Type 0 → Type 1
Sender V W = (T : Type 0) → Receiver V T W → OperationState T W

-- `std::invoke` of the function given to `then`: it may throw, and change the rest of the program.
abbrev pub Invocable : Type 0 → Type 0 → Type 0 → Type 0
Invocable U V W = U → W → Outcome V × W

module _ {T W : Type 0} where
  -- The `try` and `catch` of `schedule_state::start`.
  caught : {V : Type 0} → Receiver V T W → Outcome (Unit {0}) × T × W → T × W
  caught r (ok x, t, w) = (t, w)
  caught r (throws e, t, w) = r.fail e t w

  -- The lambda that `schedule_state::start` schedules. It holds the receiver, so that a scheduler
  -- whose tasks are `std::function`s, as `rr_scheduler` has them, takes it only where the receiver can
  -- be copied, as `value_receiver` can and `callback_receiver` cannot.
  unfoldable pub schedule_task : Receiver (Unit {0}) T W → Task T W
  unfolding caught
  schedule_task r t w = if r.is_canceled t then (t, w) else caught r (r.complete tt t w)

  complete_with : {V : Type 0} → Receiver V T W → Outcome V × W → T → Outcome (Unit {0}) × T × W
  complete_with r (ok v, w) t = r.complete v t w
  complete_with r (throws e, w) t = (throws e, t, w)

  -- `receiver_adapter`
  unfoldable pub receiver_adapter :
      {U V : Type 0} → Receiver V T W → Invocable U V W → Receiver U T W
  unfolding complete_with
  receiver_adapter r f = record {
    complete = λ u t w. complete_with r (f u w) t;
    fail = r.fail;
    cancel = r.cancel;
    is_canceled = r.is_canceled;
  }

  -- `start` of an operation state, on a scheduler whose `schedule` is given.
  unfoldable pub start_operation : {Q : Type 0} → (Task T W → Q → Q) → OperationState T W → Q → Q
  start_operation enqueue o q = enqueue o.task q

-- `schedule(scheduler)`
unfoldable pub schedule : (W : Type 0) → Sender (Unit {0}) W
schedule W T r = record { task = schedule_task r }

-- `then(sender, invocable)`
unfoldable pub then_sender : {U V W : Type 0} → Sender U W → Invocable U V W → Sender V W
then_sender s f T r = s T (receiver_adapter r f)

-- `wait(sender)`: the scheduler with the task in it, and the state that the future shares with it.
-- `V` is the sender's `result_type`: `then` makes senders that have one, and `wait` and `start` do not
-- compile for what `schedule` makes.
unfoldable pub wait :
    {V W Q : Type 0} → (Task (SharedState V) W → Q → Q) → Sender V W → Q → Q × SharedState V
unfolding start_operation value_receiver
wait {V} {W} enqueue s q =
    (start_operation enqueue (s (SharedState V) (value_receiver V W)) q, fresh)

-- `start(sender)`
unfoldable pub start : {V W Q : Type 0} → (Task (SharedState V) W → Q → Q) → Sender V W → Q → Q
unfolding start_operation value_receiver
start {V} {W} enqueue s q = start_operation enqueue (s (SharedState V) (value_receiver V W)) q
