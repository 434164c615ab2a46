-- ===== src/Governance.antt =====
-- The governance of a run's data, from ogra-desktop/src/core: high-water-mark.ts,
-- policy-service.ts and route-service.ts.
pub mod Classification
pub mod HighWater
pub mod Policy
pub mod Route
mod Tests
