-- ===== src/Nkpp.antt =====
-- examples/nkpp: a server of animals, with exceptions of its own, and a client that feeds them.
pub mod Protocol
pub mod Server
pub mod Client
mod Tests
