-- ===== src/Execution.antt =====
-- The crate `execution`: requests, policy, executors, registry and engine.
pub mod Request
pub mod Policy
pub mod Registry
pub mod Engine
pub mod PathValidation
pub mod Executors
pub mod System
