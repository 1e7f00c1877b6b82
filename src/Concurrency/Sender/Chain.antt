-- ===== src/Concurrency/Sender/Chain.antt =====
-- Chains of `schedule` and `then` as they are written, and the two halves of the task that such a chain
-- makes of a receiver: the question whether the receiver is canceled, and what follows it.
use cmake_template.Base.{◌≡◌, refl, ◌∙◌, if◌then◌else◌}
use cmake_template.Concurrency.Receiver.{Receiver}
use cmake_template.Concurrency.Sender.{
  Sender, Task, Invocable, caught, schedule_task, receiver_adapter, schedule, then_sender,
}
use cmake_template.Concurrency.Sender.Denote.{
  Computation, pure, bind, deliver, Denotes, schedule-Denotes, then_sender-Denotes, deliver-adapter,
}

-- `schedule(scheduler)`, and `then` of a chain and a function. `wait` takes the chains with a `then`.
pub data Chain (W : Type 0) : Type 0 → Type 1 where
  scheduled : Chain W (Unit {0})
  followed : {U V : Type 0} → Chain W U → Invocable U V W → Chain W V

module _ {W : Type 0} where
  abbrev pub sender_of : {V : Type 0} → Chain W V → Sender V W
  sender_of scheduled = schedule W
  sender_of (followed c f) = then_sender (sender_of c) f

  -- What the functions of a chain compute, one after the other.
  abbrev pub computation_of : {V : Type 0} → Chain W V → Computation V W
  computation_of scheduled = pure
  computation_of (followed c f) = bind (computation_of c) f

  -- The receiver that `schedule_state` gets: an adapter for each function.
  abbrev pub adapted : {V T : Type 0} → Chain W V → Receiver V T W → Receiver (Unit {0}) T W
  adapted scheduled r = r
  adapted (followed c f) r = adapted c (receiver_adapter r f)

  -- The `try` and `catch` of the task, behind `is_canceled`.
  unfoldable pub complete_task : {T : Type 0} → Receiver (Unit {0}) T W → Task T W
  unfolding caught
  complete_task r t w = caught r (r.complete tt t w)

  -- The task of a chain asks, and does the rest unless its receiver is canceled.
  sender_of-task :
      {V T : Type 0} (c : Chain W V) (r : Receiver V T W) (t : T) (w : W)
      → (sender_of c T r).task t w
        ≡ (if (adapted c r).is_canceled t then (t, w) else complete_task (adapted c r) t w)
  unfolding schedule then_sender schedule_task complete_task
  sender_of-task scheduled r t w = refl
  sender_of-task (followed c f) r t w = sender_of-task c (receiver_adapter r f) t w

  sender_of-Denotes : {V : Type 0} (c : Chain W V) → Denotes (sender_of c) (computation_of c)
  sender_of-Denotes scheduled = schedule-Denotes
  sender_of-Denotes (followed c f) =
      then_sender-Denotes (sender_of c) f (computation_of c) (sender_of-Denotes c)

  pub complete_task-adapted :
      {V T : Type 0} (c : Chain W V) (r : Receiver V T W) (t : T) (w : W)
      → complete_task (adapted c r) t w ≡ deliver r t (computation_of c w)
  unfolding complete_task deliver bind
  complete_task-adapted scheduled r t w = refl
  complete_task-adapted (followed c f) r t w =
      complete_task-adapted c (receiver_adapter r f) t w
      ∙ deliver-adapter r f t (computation_of c w)

  -- Nothing that a chain puts before its receiver changes whether it is canceled.
  pub is_canceled-adapted :
      {V T : Type 0} (c : Chain W V) (r : Receiver V T W) (t : T)
      → (adapted c r).is_canceled t ≡ r.is_canceled t
  unfolding receiver_adapter
  is_canceled-adapted scheduled r t = refl
  is_canceled-adapted (followed c f) r t = is_canceled-adapted c (receiver_adapter r f) t
