-- ===== src/Alloc.antt =====
-- sphere_prac/p1: the allocator. (sfera-mail-mt/practice/1-allocator is the same code.)
pub mod Words
pub mod Allocator
pub mod Moves
pub mod Place
pub mod Chain
pub mod Insert
pub mod Loop
pub mod First
pub mod Heap
pub mod Free
pub mod Errors
pub mod Table
pub mod Release
pub mod Same
pub mod Swap
pub mod Keeps
pub mod Move
pub mod Realloc
pub mod InPlace
pub mod Defrag
pub mod Runs
mod Tests
mod MoveTests
