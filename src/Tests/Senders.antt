-- ===== src/Tests/Senders.antt =====
-- A chain of a `schedule` and two `then`s.
use cmake_template.Base.{ℕ, ◌+◌}
use cmake_template.Core.Contract.{runtime_error, ok, throws}
use cmake_template.Concurrency.Sender.{Sender, Invocable, schedule, then_sender}
use cmake_template.Concurrency.Sender.Denote.{
  Computation, pure, bind, Denotes, schedule-Denotes, then_sender-Denotes,
}

-- The rest of the program is a number: what the functions have added to it.
abbrev answer : Invocable (Unit {0}) ℕ ℕ
answer u w = (ok 6, w + 1)

abbrev fails : Invocable ℕ ℕ ℕ
fails n w = (throws (runtime_error "no"), w + n)

abbrev pub chain : Sender ℕ ℕ
chain = then_sender (then_sender (schedule ℕ) answer) fails

abbrev pub meaning : Computation ℕ ℕ
meaning = bind (bind pure answer) fails

pub chain-Denotes : Denotes chain meaning
chain-Denotes =
    then_sender-Denotes (then_sender (schedule ℕ) answer) fails (bind pure answer)
      (then_sender-Denotes (schedule ℕ) answer pure schedule-Denotes)

then_sender-Denotes_example : Denotes (then_sender (schedule ℕ) answer) (bind pure answer)
then_sender-Denotes_example = then_sender-Denotes (schedule ℕ) answer pure schedule-Denotes
