-- ===== src/Grpc.antt =====
-- examples/grpc: a greeter service over a plain or a secure connection.
pub mod CommandLine
pub mod Server
pub mod Client
mod Tests
