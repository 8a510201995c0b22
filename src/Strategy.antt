-- ===== src/Strategy.antt =====
-- The strategy and what shields the worker from it: runtime/bootstrap/strategy_error_boundary.py,
-- strategy_adapter.py and strategy_instance_manager.py.
mod Boundary
mod Adapter
mod Instance
pub mod Contained
pub mod Handed
pub mod Single
mod Tests
unfoldable pub use Boundary.*
unfoldable pub use Adapter.*
unfoldable pub use Instance.*
