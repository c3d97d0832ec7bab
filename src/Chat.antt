-- ===== src/Chat.antt =====
-- sphere_prac/p2/chatsrv.cpp: the chat server.
pub mod Client
pub mod Server
mod Tests
