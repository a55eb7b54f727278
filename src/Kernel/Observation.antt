-- ===== src/Kernel/Observation.antt =====
-- The observation pipeline (kernel/src/observation): what a file watcher reports is filtered,
-- translated into events and appended to the event store.
pub mod Translator
pub mod Filter
pub mod Accepted
pub mod Pipeline
