-- ===== src/Control.antt =====
-- The ways in which a worker is told to stop: runtime/application/worker_control_application.py,
-- the manager's gRPC calls, and runtime/application/cooperative_shutdown.py, HTTP and SIGTERM.
mod Worker
mod Cooperative
pub mod Stops
pub mod Single
pub mod Shutdowns
mod Tests
unfoldable pub use Worker.*
unfoldable pub use Cooperative.*
