-- ===== src/Concurrency/Promise.antt =====
-- future.hpp: the handles `promise` and `future` on a shared state. A handle that was moved from
-- has a null `m_shared_state`; the state itself outlives both, through `std::shared_ptr`.
pub mod Handles
use cmake_template.Base.{Bool, true, false, Option, none, some, if◌then◌else◌}
use cmake_template.Core.Contract.{Exception}
use cmake_template.Concurrency.Future.{
  SharedState, engaged, fresh, set_value, set_exception, cancel, broken,
}

-- Whether `m_shared_state` is not null.
pub record Promise : Type 0 where
  pub is_attached : Bool

pub record Future : Type 0 where
  pub is_attached : Bool

-- The handle that a move makes, and what is left of the one moved from.
unfoldable pub move_promise : Promise → Promise × Promise
move_promise p = (p, record { is_attached = false })

-- The move assignment from another handle: what the two are afterwards. The state that the first one
-- had is let go of, and not told.
unfoldable pub move_assign_promise : (this other : Promise) → Promise × Promise
move_assign_promise this other = (other, record { is_attached = false })

unfoldable pub get_future : Promise → Future
get_future p = record { is_attached = p.is_attached }

unfoldable pub is_valid : Future → Bool
is_valid f = f.is_attached

-- A call through a null handle is undefined: `none`.
through {ℓ} : {A : Type ℓ} → Bool → A → Option A
through true a = some a
through false a = none

module _ {ℓ} {V : Type ℓ} where
  -- `promise()`
  unfoldable pub make_promise : Promise × SharedState V
  make_promise = (record { is_attached = true }, fresh)

  unfoldable pub promise_set_value : Promise → V → SharedState V → Option (SharedState V)
  unfolding through
  promise_set_value p v s = through p.is_attached (set_value (engaged v) s).0

  unfoldable pub promise_set_exception :
      Promise → Exception → SharedState V → Option (SharedState V)
  unfolding through
  promise_set_exception p e s = through p.is_attached (set_exception e s).0

  -- `promise::cancel`
  unfoldable pub promise_cancel : Promise → SharedState V → Option (SharedState V)
  unfolding through
  promise_cancel p s = through p.is_attached (cancel s).0

  -- `future::cancel`
  unfoldable pub future_cancel : Future → SharedState V → Option (SharedState V)
  unfolding through
  future_cancel f s = through f.is_attached (cancel s).0

  -- `~promise`
  unfoldable pub destroy_promise : Promise → SharedState V → SharedState V
  destroy_promise p s = if p.is_attached then (broken s).0 else s
