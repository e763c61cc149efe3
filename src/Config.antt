-- ===== src/Config.antt =====
-- src/justflow/config: the declarations of a workflow.
pub mod Grammar
pub mod Models
pub mod Validated
