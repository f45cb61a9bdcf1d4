-- ===== src/Kernel/Shell.antt =====
-- kernel/src/shell: the line that is edited, and the commands.
pub mod Line
pub mod Command
pub mod Run
pub mod Ascii
pub mod Editing
pub mod Moves
pub mod Keys
pub mod Words
mod Tests
