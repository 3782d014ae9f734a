-- ===== src/ExecutionManager.antt =====
-- The programs that start others: the client and the application of execution_manager_separated_vfs,
-- and the launcher of package_manager_utilities.
pub mod Acts
pub mod Client
pub mod Application
pub mod Launcher
mod Tests
