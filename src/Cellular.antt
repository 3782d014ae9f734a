-- ===== src/Cellular.antt =====
-- examples/cellular: a client that sends a text message through a modem, and one that connects to
-- the network and waits for the time.
pub mod Memory
pub mod Pdu
pub mod Client
pub mod Ntpd
mod Tests
