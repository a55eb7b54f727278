-- ===== src/Kernel.antt =====
-- The kernel crate (kernel/src): the event store, the projections and the observation pipeline.
pub mod Event
pub mod Store
pub mod Projection
pub mod Observation
pub mod AiContext
pub mod Engine
