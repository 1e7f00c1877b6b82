-- ===== src/Concurrency/Future.antt =====
-- lib_shared/inc/jar/concurrency/future.hpp: the shared state of a promise and its future. Here each
-- operation runs without interruption; `Future.Threads` takes them apart.
mod States
pub mod Resolve
pub mod Threads
pub use States.{Status, is_init}
use States.{is_canceled_status}
use cmake_template.Base.{Bool, true, false, not, Option, none, some, if◌then◌else◌}
use cmake_template.Core.Contract.{
  Exception, domain_error, bad_variant_access, bad_optional_access, Outcome, ok, throws,
}

-- `future_result<Value>`; for `void` the value is the one of `Unit`.
pub record FutureResult {ℓ} (V : Type ℓ) : Type ℓ where
  pub content : Option V

-- `std::variant<std::monostate, std::exception_ptr, future_result<Value>>`
pub data Stored {ℓ} (V : Type ℓ) : Type ℓ where
  monostate : Stored V
  failure : Exception → Stored V
  result : FutureResult V → Stored V

pub record SharedState {ℓ} (V : Type ℓ) : Type ℓ where
  pub status : Status  -- m_state
  pub stored : Stored V  -- m_data

module _ {ℓ} {V : Type ℓ} where
  abbrev pub engaged : V → FutureResult V
  engaged v = record { content = some v }

  abbrev pub disengaged : FutureResult V
  disengaged = record { content = none }

  unfoldable pub is_result_canceled : FutureResult V → Bool
  is_result_canceled r = elim r.content [ none ↦ true | some v ↦ false ]

  unfoldable pub value_of : FutureResult V → Outcome V
  value_of r = elim r.content [ none ↦ throws bad_optional_access | some v ↦ ok v ]

  abbrev pub fresh : SharedState V
  fresh = record { status = Status.init; stored = monostate }

  unfoldable pub is_ready : SharedState V → Bool
  is_ready s = not (is_init s.status)

  unfoldable pub is_canceled : SharedState V → Bool
  is_canceled s = is_canceled_status s.status

  -- Each of the four returns the state, and whether it called `notify_one`.
  unfoldable pub set_value : FutureResult V → SharedState V → SharedState V × Bool
  set_value r s =
      if is_init s.status
      then (record { status = Status.value; stored = result r }, true)
      else (s, false)

  unfoldable pub set_exception : Exception → SharedState V → SharedState V × Bool
  set_exception e s =
      if is_init s.status
      then (record { status = Status.error; stored = failure e }, true)
      else (s, false)

  unfoldable pub cancel : SharedState V → SharedState V × Bool
  cancel s =
      if is_init s.status
      then (record { status = Status.canceled; stored = result disengaged }, true)
      else (s, false)

  unfoldable pub broken : SharedState V → SharedState V × Bool
  broken s = if is_init s.status then (record s { status = Status.broken }, true) else (s, false)

  -- A moved-from `future_result` keeps its engagement; `moved` is what is left of the value.
  abbrev pub moved_from : (V → V) → FutureResult V → FutureResult V
  moved_from moved r = elim r.content [ none ↦ r | some v ↦ engaged (moved v) ]

  take_result :
      (V → V) → SharedState V → Stored V → Option (Outcome (FutureResult V)) × SharedState V
  take_result moved s (result r) = (some (ok r), record s { stored = result (moved_from moved r) })
  take_result moved s _ = (some (throws bad_variant_access), s)

  rethrow : SharedState V → Stored V → Option (Outcome (FutureResult V)) × SharedState V
  rethrow s (failure e) = (some (throws e), s)
  rethrow s _ = (some (throws bad_variant_access), s)

  get_at : (V → V) → Status → SharedState V → Option (Outcome (FutureResult V)) × SharedState V
  unfolding take_result rethrow
  get_at moved Status.init s = (none, s)
  get_at moved Status.canceled s = take_result moved s s.stored
  get_at moved Status.value s = take_result moved s s.stored
  get_at moved Status.error s = rethrow s s.stored
  get_at moved Status.broken s = (some (throws (domain_error "broken promise")), s)

  -- `get`: `none` while the caller still waits for `is_ready`, so the `default` is never reached.
  unfoldable pub get :
      (moved : V → V) → SharedState V → Option (Outcome (FutureResult V)) × SharedState V
  unfolding get_at
  get moved s = get_at moved s.status s
