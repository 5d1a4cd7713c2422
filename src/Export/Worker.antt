-- ===== src/Export/Worker.antt =====
-- The exporter's worker task, crates/eden_logger_export/src/worker.rs.
pub mod Tracker
pub mod Sizer
pub mod Retry
pub mod Split
pub mod Batch
pub mod Assemble
pub mod Shutdown
mod Tests
