-- ===== src/Engine/Data.antt =====
-- src/justflow/engine/data.py: normalization of Python values to JSON values, and path traversal.
pub mod Objects
pub mod Normalize
pub mod Paths
pub mod Json
pub mod Errors
pub mod Traversal
