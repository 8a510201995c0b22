-- ===== src/Lifecycle.antt =====
-- runtime/application/lifecycle_service.py: `LifecycleService`. State holds its attributes, the
-- calls that leave it and the monad of its methods; Phases, Startup, Shutdown and Running hold the methods.
mod State
pub mod Logic
pub mod Total
mod Phases
mod Shutdown
mod Startup
mod Running
pub mod Keeping
pub mod Stopped
pub mod Returning
pub mod Started
pub mod Checks
pub mod Feeds
pub mod Requested
pub mod Steps
mod Tests
unfoldable pub use State.*
unfoldable pub use Phases.*
unfoldable pub use Shutdown.*
unfoldable pub use Startup.*
unfoldable pub use Running.*
