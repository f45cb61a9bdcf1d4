-- ===== src/Lib.antt =====
-- yacuri, a kernel (kernel/) and its language yacari (lang/).
--
-- The parts and how they meet. A program of the language is lexed into tokens, parsed into modules
-- of functions and classes, compiled and translated to machine code; names and tokens keep their
-- text in the small strings of lang/src/smol_str.rs. The kernel gives the language its heap, from
-- an allocator over mapped pages, and its files, from a FAT library over the ATA disk driver.
--
-- Which file models what. Rust functions keep their names; a method takes its `self` as an argument
-- and returns it; a panic, an error and a poll without end are values of a result type.
--   Base            Boolean tests, lists over native numbers, integers, and binary masks
--   Lang/Token      lang/src/lexer.rs and error.rs: token kinds, binding powers, error values
--   Lang/SmolStr    lang/src/smol_str.rs: representations, and the text each gives back (Storage)
--   Lang/Ast        lang/src/parser/ast.rs
--   Lang/Parser     lang/src/parser/mod.rs: State (tokens and errors), Expr, Decl; Budget, Fuel and
--                   Total say that fuel is enough, Grouping how operators nest, Recovery what is
--                   skipped after an error
--   Lang/Compiler/Ir            lang/src/compiler/ir/mod.rs
--   Lang/Compiler/ExprCompiler  lang/src/compiler/module/expr_compiler.rs: Plain (the expressions it
--                   means to compile), Typing (a judgement for its trees), Checked, Judged,
--                   JudgedCalls and Sound; Ready, Steps, Callee and Total; Slots (the theorems on
--                   scopes, locals and types)
--   Lang/Compiler/Pass and Passes  lang/src/compiler/module/passes/mod.rs, resolver.rs and mod.rs beside
--                   it, and lang/src/compiler/mod.rs: Held and Borrowing
--                   (borrows of a module), Kept and Errors (what a pass leaves), Consume (all
--                   modules), Bodies (function bodies)
--   Kernel/Allocator/Layout     kernel/src/allocator/mod.rs: align_up
--   Kernel/Allocator/Frames     kernel/src/allocator/memory.rs: usable frames (Ascending); and the
--                   pages of the heap, from mod.rs (Mapping)
--   Kernel/Allocator/Bump       kernel/src/allocator/bump.rs; Live has the blocks callers hold
--   Kernel/Allocator/FixedSize  kernel/src/allocator/fixed_size_block.rs, with the free lists in
--                   memory: Owners (who has a block), Chains (the lists), Steps, Calls, Apart and
--                   Aligned; Growing is a heap that the theorems are applied to
--   Kernel/Shell      kernel/src/shell: Line (strings), Command, Run (the shell); Ascii, Editing, Moves and
--                   Keys (the edited line), Words (the lines that are commands)
--   Kernel/Keyboard   kernel/src/drivers/keyboard.rs: the queue and the waker; Waking
--   Kernel/Graphics  kernel/src/graphics/mod.rs: Drawing (lines and pixels), Rect
--   Kernel/Scheduling  kernel/src/scheduling: the executor, its tasks and their wakers; Live
--   Kernel/VgaBuffer  kernel/src/drivers/vga_buffer.rs, less the hardware cursor: Scrolling, Lines and
--                   ShellRow
--   Kernel/Disk     kernel/src/drivers/disk/ata_pio.rs: Drive (state and pure parts), Transfer (what
--                   goes through the ports), Count, Place, Sent, Sector, Wait, Reading, Writing,
--                   RoundTrip and Edges; Simulated is a drive that the theorems are applied to
--
-- Numbers. Machine words are native numbers with their wrap-around written out, as in a build
-- without overflow checks. An `f64` is its bit pattern. Text is its bytes.
--
-- Parameters, for what is not code of the repository: `f64::from_str`; the I/O ports
-- (Kernel/Disk/Ports), with the documented protocol of the drive behind them (Kernel/Disk/Protocol);
-- the heap of the crate linked_list_allocator, with what it promises (HeapLaws in
-- Kernel/Allocator/FixedSize/Owners); the page tables of the crate x86_64 (MapperLaws in
-- Kernel/Allocator/Frames/Mapping); the filesystem of the crate fatfs (Fat in Kernel/Shell/Run); the
-- futures of the tasks and what polling one does (Kernel/Scheduling). A lexed file is its list of
-- tokens, since the lexer is generated by the crate logos.
--
-- The compiler renders types for its messages by the derived `Debug`, which for a function or a class
-- prints the module behind it, and whatever that leads to, often itself. What it prints there is a
-- parameter of the compiler (Debug in Lang/Compiler/ExprCompiler), which may be without an end: the
-- program then runs out of stack, and the model's run is a panic. No theorem assumes that it ends. The
-- reports go nowhere in the program; the model logs them to say when there are none.
--
-- Fuel. The parser's functions call each other on fuel: ten units for each token and ten more,
-- which Total shows to be enough. `synchronize` takes one unit for each token. The disk driver polls
-- its status port a given number of times; the protocol says that so many are enough.
--
-- Not modelled: the translation to machine code and the running of programs, the FAT
-- filesystem's walk, the hardware cursor, the decoding of keys, serial port, interrupts, the
-- loop of the executor around its rounds with its sleep, and the set-up of page tables.
pub mod Base
pub mod Lang
pub mod Kernel
