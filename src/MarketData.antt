-- ===== src/MarketData.antt =====
-- The market data ingress: runtime/integration/market_data_redis_feed.py with
-- market_data_partition.py beside it, and runtime/bootstrap/bar_timeframe.py.
pub mod Names
pub mod Streams
pub mod Decoding
pub mod Ingress
pub mod Reading
mod Tests
