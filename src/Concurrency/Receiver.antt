-- ===== src/Concurrency/Receiver.antt =====
-- The receivers of lib_shared/inc/jar/concurrency/details: the interface that `schedule_state` and
-- the adapters call, and its implementations.
pub mod Callback
pub mod Value
use cmake_template.Base.{Bool}
use cmake_template.Core.Contract.{Exception, Outcome}

-- A receiver of values `V` whose own state is a `T`, in a program whose other state is a `W`.
-- `complete` may throw, since what it calls may.
pub record Receiver (V T W : Type 0) : Type 0 where
  pub complete : V → T → W → Outcome (Unit {0}) × T × W
  pub fail : Exception → T → W → T × W
  pub cancel : T → W → T × W
  pub is_canceled : T → Bool
