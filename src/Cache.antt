-- ===== src/Cache.antt =====
-- sphere_prac/p5: the cache server.
pub mod Memory
pub mod Machine
pub mod Semaphore
pub mod HashTable
pub mod Exclusion
pub mod Stream
pub mod Request
pub mod Sockets
pub mod Coworker
mod Tests
