-- ===== src/Echo.antt =====
-- sfera-mail-mt/network/echo: the echo servers, one for each way to wait for clients.
pub mod Calls
pub mod Contract
pub mod Live
pub mod Descriptors
pub mod Poll
pub mod Kqueue
pub mod Epoll
pub mod Select
pub mod Libev
pub mod Libevent
mod Tests
