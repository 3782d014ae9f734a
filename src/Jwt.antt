-- ===== src/Jwt.antt =====
-- examples/jwt: a web server that serves files and hands out and checks tokens, and the token
-- service behind it.
pub mod Http
pub mod Paths
pub mod Query
pub mod TokenService
pub mod Handlers
pub mod WebServer
pub mod Session
mod Tests
