-- ===== src/Lib.antt =====
-- The verification library of cotrex-ai, an AI execution layer with an event-sourced kernel.
--
-- Parts and files.
--
-- Kernel (kernel/src): an append-only event store, projections that derive state from it, and the
-- pipeline that turns what a file watcher reports into events.
-- * Kernel/Event models event.rs, record by record.
-- * Kernel/Store models the trait EventStore of store.rs as an interface, IsEventLog the contract that
--   its comments state; Kernel/Store/Memory models MemoryEventStore (new, with_capacity, append,
--   replay, len, next_sequence). Kernel/Store/Persistent models persistent_store.rs: open (open_store)
--   with scan_log and the repair of the cache, append and replay, and Verify the report of verify;
--   Journal says what is assumed of the file system and of serde_json, where a write fails as a whole
--   and the buffer has room for the lines; Commit, Flush, Reading, Opening and Simulation, which
--   compares it with the in-memory store, rest on that. Recovery is about a store that is opened anew.
--   Buffered takes the log as text of which a write may leave a part, and Durable says what an append
--   leaves to the next run of the program then.
-- * Kernel/Projection models FileChangeProjection of projection.rs with all its methods; Files says
--   what its state is in terms of the log, Rebuild and Lifecycle what its methods do. Kernel/AiContext
--   models AiContextProjection of ai_context.rs.
-- * Kernel/Engine models the trait Projection and ProjectionEngine of engine.rs; Following and Missed
--   are about projections in an engine and the log.
-- * Kernel/Observation models translator.rs, filter.rs and pipeline.rs of kernel/src/observation.
--
-- Execution (execution/src): requests to act on the world, checked, dispatched and logged in an event
-- store of the kernel.
-- * Execution/Request models request.rs, result.rs, error.rs and the trait of executor.rs, Policy
--   models policy.rs, Registry registry.rs.
-- * Execution/Engine models ExecutionEngine::submit of engine.rs, over any store that keeps the
--   contract; Audit says what a submit leaves in the store and the world, Trail what many do one
--   after another; Undeclared is about requests that declare no capability. Threads splits a submit
--   into three steps, between which other threads may go on; the run of an executor is one of them,
--   and in Alone three steps of one thread are a submit.
-- * Execution/PathValidation models executor/path_validation.rs, Execution/Executors the executors of
--   file_write.rs, file_delete.rs and command.rs beside it. The operating system is the record System
--   of Execution/System, a parameter. Executors/Effects lists the calls of it that an action may come
--   to, and Engine/World puts the engine and the executors together.
--
-- Contract (contract/src): the provider states and the requests and responses of the protocol.
--
-- Runtime (runtime/src): the providers that answer requests with a language model.
-- * Runtime/Local models local_provider.rs, lifecycle.rs, adapter.rs and the calls of
--   CapabilityProviderExt in lib.rs, over any model with the operations of LocalModel.
-- * Runtime/Lazy models lazy_provider.rs; its ensure_ready is two steps, between which other threads
--   may call. Lazy/Calls has the calls of the provider where none does.
-- * Runtime/Config models config.rs, and Loading says what a loaded configuration holds.
-- * Runtime/Manager models model_manager/: error.rs and registry.rs, with storage.rs in Storage,
--   resolver.rs in Resolver and downloader.rs in Download. The loop of the download runs on fuel, and
--   download_model answers with none where it is used up; Ending says how much is enough.
-- * Runtime/Output models parser.rs and capability_parser.rs, Runtime/Prompt context.rs and
--   assembler.rs. Runtime/Calls puts them together as orchestrate.rs and orchestration/ do.
--
-- Providers (providers/ and capabilities/): what a request can be answered by.
-- * Providers/Llama models LlamaCppModel of llama-cpp/src/lib.rs: load, unload and the checks on the
--   prompt; Generation has infer from the first batch on, one token a round, at most max_tokens
--   rounds; Stub is the build without inference. The binding of llama.cpp is the record Binding.
-- * Providers/Mock models mock/src/lib.rs and runtime/src/mock_model.rs, Providers/Fixtures
--   json/src/lib.rs, Providers/Capabilities the parsers of capabilities/src/lib.rs.
--
-- Agent (agent/src): from a goal to an execution.
-- * Agent/Resolver models decision.rs and resolver.rs, Agent/Controller process_goal of controller.rs
--   over any planner; Controller/Session puts controller, engine, policy and executors together.
-- * Agent/Reasoning models parser.rs, planner.rs, provider.rs and context.rs.
--
-- FilePath models the operations of std::path that these parts use, Base what they share. Tests holds
-- runs on concrete inputs.
--
-- Conventions. A method that writes through &self behind a lock takes the state and returns a result
-- and the new state; the state comes back beside an error as well. A call is one step, except where a
-- file says otherwise; poisoned locks are not modelled. What the outside world decides (uuids, the
-- clock, the time measured) is an argument. A u64 counter wraps around. A HashMap is an association
-- list; no statement depends on its order. A PathBuf is the list of its components, by which the
-- standard library compares, hashes and strips prefixes. An i32 or f32 is kept as its bits. Fuel is used
-- only for the download and for the digest of a file, whose fuel is its length and one more; every
-- other loop runs over a list or a number of rounds.
--
-- Not modelled: the binding of llama.cpp, serde_json, TOML, the HTTP client and the digest, which are
-- parameters; the callbacks that report tokens and progress, and the times of a profile; the printing
-- of errors that nothing reads; the execution events of execution/src/events.rs, which nothing uses;
-- programs that exercise the library (examples/, runtime/tests).
pub mod Base
pub mod FilePath
pub mod Kernel
pub mod Contract
pub mod Execution
pub mod Runtime
pub mod Agent
pub mod Providers
pub mod Tests
