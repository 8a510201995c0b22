-- ===== src/Persistence.antt =====
-- The records of a worker in SQLite: runtime/persistence/repositories.py.
pub mod Wire
pub mod Sql
pub mod Memory
mod Tests
pub mod Instances
pub mod WorkerEvents
pub mod Attempts
