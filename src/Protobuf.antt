-- ===== src/Protobuf.antt =====
-- The protobuf example (protobuf/producer and protobuf/consumer): address books that one program
-- reads from JSON files and the other prints.
pub mod Books
pub mod Producer
pub mod Consumer
pub mod Delivery
mod Tests
