-- ===== src/Epoll.antt =====
-- sphere_prac/p2/epoll-example.c: a server that prints what its clients send. (lectures/epoll-example.c
-- is the same file.)
pub mod Start
pub mod Events
pub mod Output
pub mod Deaf
mod Tests
