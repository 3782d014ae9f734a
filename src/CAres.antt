-- ===== src/CAres.antt =====
-- examples/c-ares: a name resolver over c-ares, and a client whose callback object serves the
-- answers.
pub mod Callable
pub mod Address
pub mod Resolver
pub mod Polling
pub mod Client
mod Tests
