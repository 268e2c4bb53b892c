-- ===== src/Worker.antt =====
-- apps/worker: consumes the raw topic, and persists each event or sends it to the dead letter queue.
pub mod Config
pub mod Services
pub mod Db
pub mod Idempotency
pub mod Retry
pub mod Dlq
pub mod Handlers
pub mod Frames
pub mod Processor
pub mod Consumer
pub mod Lifecycle
