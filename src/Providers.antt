-- ===== src/Providers.antt =====
-- The crates under providers/ and capabilities/, over the trait `CapabilityProvider`
-- (runtime/src/lib.rs).
pub mod Llama
pub mod Mock
pub mod Fixtures
pub mod Capabilities
