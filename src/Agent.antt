-- ===== src/Agent.antt =====
-- The agent (agent/src): decisions, the resolver and the controller.
pub mod Resolver
pub mod Controller
pub mod Reasoning
