-- ===== src/Ast.antt =====
-- src/ast/ast.h: the syntax tree that the parser builds and the semantic analysis reads.
-- A node is reached by a pointer into the arena; `Place` holds that address, by which the analysis
-- keys its maps, with the source line.
mod Names
mod Expressions
mod Statements
pub use Names.*
pub use Expressions.*
pub use Statements.*
