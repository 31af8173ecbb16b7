-- ===== src/Telemetry.antt =====
-- internal/telemetry: what the vehicle reports and when it is sent.
pub mod Env
pub mod Delta
pub mod Publisher
pub mod Buffer
pub mod Collector
pub mod Monitor
pub mod Events
pub mod EventBuffer
