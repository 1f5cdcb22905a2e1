-- ===== src/Entities.antt =====
-- internal/entities: the statuses, their tables, the monitored records and the request checks.
pub mod Status
pub mod Translation
pub mod Monitor
