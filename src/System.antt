-- ===== src/System.antt =====
-- lib_header/inc/jar/system and lib_static/{inc,src}/jar/system.
pub mod Handle
pub mod IpcAddress
pub mod Kernel
pub mod Posix
