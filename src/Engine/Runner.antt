-- ===== src/Engine/Runner.antt =====
-- src/justflow/engine/runner.py: the execution of one workflow run, over an executor.
pub mod State
pub mod Machine
pub mod Graph
pub mod Successors
pub mod Connected
pub mod Regions
pub mod Invoke
pub mod Loops
pub mod Attempts
pub mod Counting
pub mod Items
pub mod Branches
pub mod Budget
pub mod Waits
pub mod Execute
pub mod Run
pub mod Params
pub mod Failing
pub mod Keeping
pub mod Audit
pub mod Choices
pub mod Rounds
pub mod Trails
pub mod Reports
pub mod Recovery
pub mod Performing
