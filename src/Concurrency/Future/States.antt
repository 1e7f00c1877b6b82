-- ===== src/Concurrency/Future/States.antt =====
-- future.hpp: the enumeration `shared_state::state`, and the tests on it.
use cmake_template.Base.{Bool, true, false}

pub data Status : Type 0 where
  init value error canceled broken : Status

abbrev pub is_init : Status → Bool
is_init init = true
is_init _ = false

abbrev pub is_canceled_status : Status → Bool
is_canceled_status canceled = true
is_canceled_status _ = false
