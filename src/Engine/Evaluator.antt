-- ===== src/Engine/Evaluator.antt =====
-- src/justflow/engine/evaluator.py: inline conditions. `ast.parse`, of the standard library, is a
-- parameter; the trees that it makes are the data type `Expr`.
pub mod Syntax
pub mod Operators
pub mod Evaluate
pub mod Safety
pub mod Errors
pub mod Roots
pub mod References
