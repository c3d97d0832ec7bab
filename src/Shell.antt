-- ===== src/Shell.antt =====
-- sphere_prac/p4: the shell.
pub mod Text
pub mod Call
pub mod CallParser
pub mod Execute
pub mod InstructionParser
pub mod Session
mod Tests
