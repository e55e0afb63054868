-- ===== src/Status.antt =====
-- The status history (packages/core/src/status, packages/contracts/src/status.ts).
pub mod Events
pub mod Reachability
pub mod Connection
pub mod Incident
pub mod Rollup
pub mod Drain
pub mod Host
pub mod Bot
mod Tests
