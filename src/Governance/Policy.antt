-- ===== src/Governance/Policy.antt =====
-- ogra-desktop/src/core/policy-service.ts: `PolicyService`.
pub mod Types
pub mod Registry
pub mod Flow
pub mod Gates
pub mod Evaluate
pub mod Cleared
pub mod Network
pub mod Egress
pub mod Outcome
pub mod Overrides
