-- ===== src/Lib.antt =====
-- Verification of the C++ code of this repository: lib_header, lib_shared, lib_static and exe_service.
--
-- The program and its parts. lib_shared/inc/jar/concurrency is a small library for asynchronous work: a
-- thread pool runs tasks that it fetches from a round-robin scheduler; the scheduler keeps one blocking
-- queue for each thread; senders build chains of functions (`schedule`, `then`) that `wait` and `start`
-- connect to a receiver and hand to a scheduler as one task; a receiver resolves a promise, or calls
-- handlers; a latch is a counter to wait for. lib_static/inc/jar/com has sockets over the POSIX wrappers of
-- lib_static/src/jar/system/posix/socket.cpp. lib_header has the contract checks that turn bad arguments and
-- failed system calls into exceptions, and the handle class that owns a system resource.
--
-- How code and model correspond. An operation is a function of the same name, from the state before to
-- the result and the state after. Operations that throw return an `Outcome`; a wait that does not return
-- is a value of its own (`waits`, `sleeps`, or `none`). Code that runs under threads has, beside the
-- functions, a relation `Step` whose constructors are the pieces that run without interruption, and
-- `Reach` is what any sequence of them reaches. Where a source operation is several steps (the
-- subtraction, the test and the notification of `latch::count_down`; the compare-exchange, the write and
-- the notification of a promise), so it is in the relation. A mutex is the atomicity of a step, or a
-- `Holder` where other steps do not take it. Condition variables are counts of sleeping and of woken
-- threads, with spurious wake-ups. Memory orders are taken as sequentially consistent.
--
-- Files.
--   Base: shared names, tests on numbers, lists over the native numbers, words, bits and signed
--     results.
--   Core/Contract: lib_header/inc/jar/core/contract.hpp, with exceptions and outcomes;
--     Core/TypeTraits: type_traits.hpp beside it.
--   System/Handle: lib_header/inc/jar/system/basic_handle.hpp; Handle/Ownership runs programs of
--     handles.
--   System/IpcAddress: lib_static/inc/jar/system/posix/ipc_address.hpp; IpcAddress/View: the path
--     an address shows.
--   System/Kernel: the system calls, a parameter.
--   System/Posix: lib_static/{inc,src}/jar/system/posix/socket.{hpp,cpp}; Posix/Flags: the
--     non-blocking mode.
--   Com/Enums:
--     lib_static/{inc,src}/jar/com/{socket_family,socket_type,socket_protocol,shutdown_mode}.{hpp,cpp};
--     Enums/Printing: their stream operators.
--   Com/Address: lib_static/inc/jar/com/basic_address.hpp and ipc/basic_ipc_address.hpp, over an
--     interface of traits.
--   Com/Protocol: lib_static/inc/jar/com/basic_protocol.hpp; Com/Ipc: ipc/ipc.hpp.
--   Com/Socket: the socket classes of lib_static/inc/jar/com; Socket/Arguments: their guards;
--     Socket/Calls: a table of the system calls that they make; Socket/Performs: they do;
--     Socket/Limits: the numbers that go to the system and come back; Socket/Descriptors: the file
--     descriptors that they open and close.
--   Concurrency/Condition: condition variables, as the files below use them.
--   Concurrency/Queue: lib_shared/inc/jar/concurrency/queue.hpp; Queue/Fifo: histories of calls;
--     Queue/Wakeup: threads.
--   Concurrency/Latch: latch.hpp and latch.cpp; Latch/Count: calls in a row; Latch/Threads:
--     threads.
--   Concurrency/Future: the shared state of future.hpp; Future/Resolve: calls in a row;
--     Future/Threads: threads.
--   Concurrency/Promise: the handles of future.hpp; Promise/Handles: programs of them.
--   Concurrency/Receiver: the interface of receivers; Receiver/Callback and Receiver/Value:
--     details/callback_receiver.hpp and details/value_receiver.hpp.
--   Concurrency/TypeTraits: type_traits.hpp; TypeTraits/Accepted: the functions that the library
--     takes; TypeTraits/Members: the classes that fit together.
--   Concurrency/Sender: schedule.hpp, then.hpp, start.hpp, wait.hpp and
--     details/sender_adapter.hpp; Sender/Denote: what a chain computes; Sender/Chain: chains as they
--     are written; Sender/Wait: what the future of one answers.
--   Concurrency/RrScheduler: rr_scheduler.hpp and rr_scheduler.cpp; RrScheduler/Access: one queue
--     of the vector; Weights and Tasks: the tasks queued; Scan: one round over the queues; Cancel:
--     after `clear`; Balance: calls of `schedule` in a row.
--   Concurrency/ThreadPool: thread_pool.hpp; ThreadPool/Join: one worker's loop;
--     ThreadPool/Threads: the pool, its callers and its queues under threads, over Queue/Wakeup. Its
--     children: Cells: each queue on its own; Sleepers: who sleeps where; Phases: construction and
--     destruction; Growth: the threads started and the tasks dropped; Accounts: where the tasks are;
--     Loops: the bounds of the loops; Rest: a pool in which nothing is left to do; Costs and Progress:
--     how many steps are left; Moves: a step is always possible before that; Liveness and Always: what
--     becomes of tasks and threads; Escapes: tasks that throw, which the others leave out; Spec: a
--     bag of tasks, which the pool implements; Calls and Submits: `scheduled` and `schedule` as
--     steps; Takes and Lands: what these get a worker, and where they put a task; World and Future:
--     chains of senders on the pool; Places, InTurn and Sequential: one thread, and tasks scheduled in
--     turn. A task takes effect at once, when it ends.
--   Concurrency/ThreadPool/Clients: chains on the pool beside clients that cancel their futures; a
--     task also asks, before it ends, whether it is canceled. Clients/History: what a sequence of
--     cancellations and ends of tasks makes of the futures; Invariant, Settled and Moves: what holds
--     of every state, and the next steps; Answers: what the futures answer.
--   Service: exe_service, a program that starts one thread and waits for it.
--   Tests: the theorems at concrete inputs.
--
-- Numbers and fuel. `std::size_t` wraps at 2 ^ 64 and `unsigned` at 2 ^ 32, written out where the code
-- computes with them. The loop of a worker takes rounds as fuel; one round more than there are queued
-- tasks is enough once the queues are cancelled. The loops of the scheduler are recursion on the rounds
-- that are left. For the pool under threads `steps_left` bounds the steps that its own threads and the
-- calls under way still make.
--
-- Not modelled. The empty class `connection`, tests and benchmarks; the move assignment of
-- `basic_handle`, which does not compile where it is used; `rr_scheduler::adapter::schedule`, whose task
-- calls a function over references to its arguments. What types the compiler refuses is modelled in
-- Concurrency/TypeTraits and Core/TypeTraits alone: a chain on `rr_scheduler` needs a receiver that can
-- be copied, and `wait` and `start` need a sender that `then` has made. The system calls, the functions
-- that users give to `then` and what `std::async` does are parameters. A task throws or does not, whatever
-- the state in which it runs; a chain of senders catches the exceptions of its functions, and is a
-- task that does not.
pub mod Base
pub mod Core
pub mod System
pub mod Com
pub mod Concurrency
pub mod Service
pub mod Tests
