-- ===== src/Ast.antt =====
-- The syntax tree that the serializer and the analyses read.
pub mod Expr
pub mod Pattern
pub mod Ranges
pub mod Stmt
