-- ===== src/Notification.antt =====
-- Sending notifications (packages/core/src/notification).
pub mod Outcome
pub mod Delivery
pub mod Egress
pub mod Announce
