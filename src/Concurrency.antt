-- ===== src/Concurrency.antt =====
-- lib_shared/inc/jar/concurrency and lib_shared/src/jar/concurrency.
pub mod Condition
pub mod TypeTraits
pub mod Queue
pub mod Latch
pub mod Future
pub mod Promise
pub mod Receiver
pub mod Sender
pub mod RrScheduler
pub mod ThreadPool
