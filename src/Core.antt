-- ===== src/Core.antt =====
-- lib_header/inc/jar/core.
pub mod Contract
pub mod TypeTraits
