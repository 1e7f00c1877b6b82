-- ===== src/Concurrency/Receiver/Value.antt =====
-- lib_shared/inc/jar/concurrency/details/value_receiver.hpp: a receiver that resolves a promise. Its
-- copies share the promise, which stays attached while one of them lives.
use cmake_template.Core.Contract.{ok}
use cmake_template.Concurrency.Future.{
  SharedState, engaged, is_canceled, set_value, set_exception, cancel,
}
use cmake_template.Concurrency.Receiver.{Receiver}

module _ (V W : Type 0) where
  unfoldable pub value_receiver : Receiver V (SharedState V) W
  value_receiver = record {
    complete = λ v s w. (ok tt, (set_value (engaged v) s).0, w);
    fail = λ e s w. ((set_exception e s).0, w);
    cancel = λ s w. ((cancel s).0, w);
    is_canceled = is_canceled;
  }
