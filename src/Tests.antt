-- ===== src/Tests.antt =====
-- Runs of the definitions on concrete inputs, and the theorems at such inputs.
mod Store
mod Projection
mod Observation
mod Execution
mod Persistent
mod Durable
mod Engine
mod Runtime
mod Agent
mod Llama
mod Calls
mod Manager
mod Reasoning
mod Session
mod Threads
