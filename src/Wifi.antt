-- ===== src/Wifi.antt =====
-- examples/wifi/wpa_supplicant_client: a client that joins and leaves a network by commands to
-- wpa_supplicant.
pub mod Property
pub mod Manager
pub mod Client
mod Tests
