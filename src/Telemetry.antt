-- ===== src/Telemetry.antt =====
-- backend/internal/telemetry: the store of readings and the analytics over them.
pub mod Store
pub mod Periods
pub mod Charts
pub mod Sessions
pub mod Events
