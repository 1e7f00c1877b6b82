-- ===== src/Com.antt =====
-- lib_static/{inc,src}/jar/com.
pub mod Enums
pub mod Address
pub mod Protocol
pub mod Socket
pub mod Ipc
