-- ===== src/Audit.antt =====
-- The audit trail: ogra-desktop/src/core/audit-envelope.ts, and the event log of
-- ogra-desktop/src/core/durable-runtime-service.ts.
pub mod Json
pub mod Canonical
pub mod Event
pub mod Chain
pub mod Log
mod Tests
