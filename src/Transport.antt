-- ===== src/Transport.antt =====
-- Talking to the hosts (packages/transport).
pub mod Limiter
pub mod ReadConnections
mod Tests
