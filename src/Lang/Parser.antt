-- ===== src/Lang/Parser.antt =====
-- lang/src/parser/mod.rs: the recursive-descent parser, over the list of a file's tokens.
pub mod State
pub mod Expr
pub mod Decl
pub mod Budget
pub mod Fuel
pub mod Total
pub mod Grouping
pub mod Recovery
mod Tests
