-- ===== src/Export.antt =====
-- The OTLP exporter, crates/eden_logger_export/src.
pub mod Claim
pub mod Collector
pub mod Shared
pub mod Worker
pub mod Config
pub mod Metrics
pub mod Sink
pub mod Handle
pub mod Mapper
