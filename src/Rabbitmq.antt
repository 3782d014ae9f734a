-- ===== src/Rabbitmq.antt =====
-- examples/rabbitmq: the helpers that the publisher and the consumer share.
pub mod Dump
pub mod Errors
pub mod Client
mod Tests
