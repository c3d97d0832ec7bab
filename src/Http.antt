-- ===== src/Http.antt =====
-- sphere_prac/http_server: the HTTP server.
pub mod Strings
pub mod Params
pub mod Request
pub mod Response
pub mod Handler
pub mod Server
mod Tests
