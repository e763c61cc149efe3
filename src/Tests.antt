-- ===== src/Tests.antt =====
-- Runs of the modelled code on fixed data, and the theorems at concrete inputs.
pub mod Deliveries
pub mod Conditions
pub mod Runs
pub mod Executions
pub mod Relays
pub mod Captures
pub mod Queues
pub mod Activations
pub mod Steps
