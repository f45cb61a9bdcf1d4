-- ===== src/Lang.antt =====
-- The language: lang/src.
pub mod Token
pub mod SmolStr
pub mod Ast
pub mod Parser
pub mod Compiler
