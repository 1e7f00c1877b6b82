-- ===== src/Tests.antt =====
-- The theorems at concrete inputs.
mod Queues
mod Latches
mod Futures
mod Senders
mod Schedulers
mod Pools
mod Escapes
mod Clients
mod Calls
mod Sequences
mod Handles
mod Types
mod Sockets
mod Services
