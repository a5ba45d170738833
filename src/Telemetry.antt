-- ===== src/Telemetry.antt =====
-- services/telemetry: the fan-out of events to subscribers (internal/hub) and the batch aggregates
-- over the job events (internal/jobs).
mod Tests
pub mod Hub
pub mod Aggregator
