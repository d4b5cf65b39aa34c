-- ===== src/Telemetry.antt =====
-- packages/shared/src/telemetry: what the SDKs hold until the next batch is reported.
pub mod ValueId
pub mod EventQueue
pub mod TrackedEvents
pub mod InvalidContexts
pub mod LimitedMap
pub mod Utf8
pub mod Aggregation
pub mod Collector
pub mod Tests
