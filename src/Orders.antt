-- ===== src/Orders.antt =====
-- runtime/domain/order_intent.py: the order intents of a strategy.
mod Intent
pub mod Valid
mod Tests
unfoldable pub use Intent.*
