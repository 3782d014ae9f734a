-- ===== src/ErrorsViaIpc.antt =====
-- examples/errors_via_ipc: a client that asks one of two servers for a sum, and turns to the other
-- server when the first one is busy.
pub mod Protocol
pub mod Servers
pub mod Clients
pub mod System
pub mod Laws
mod Tests
