-- ===== src/Engine.antt =====
-- src/justflow/engine: the parts of the workflow engine.
pub mod Exceptions
pub mod Limits
pub mod Deduplication
pub mod Data
pub mod Evaluator
pub mod Worklist
pub mod References
pub mod Runner
pub mod Messages
pub mod Failures
pub mod Backoff
pub mod Relay
pub mod AuditCapture
pub mod Analysis
