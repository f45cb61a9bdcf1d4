-- ===== src/Lang/Compiler.antt =====
-- lang/src/compiler: the compiler's components.
pub mod Ir
pub mod ExprCompiler
pub mod Pass
pub mod Passes
