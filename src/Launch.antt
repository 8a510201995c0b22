-- ===== src/Launch.antt =====
-- runtime/domain/launch_context.py and runtime/domain/worker_identity.py: the launch metadata and
-- the identity of a worker, each as its dataclass with what `__post_init__` checks and rewrites.
pub mod Fields
pub mod Context
pub mod Identity
pub mod Valid
pub mod Identified
mod Tests
