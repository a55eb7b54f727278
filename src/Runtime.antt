-- ===== src/Runtime.antt =====
-- The crate `runtime`: the providers.
pub mod Local
pub mod Config
pub mod Manager
pub mod Lazy
pub mod Output
pub mod Prompt
pub mod Calls
