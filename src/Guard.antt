-- ===== src/Guard.antt =====
-- The progress guard: ogra-desktop/src/core/progress-guard.ts. A time is a number of milliseconds.
pub mod State
pub mod Input
pub mod Window
pub mod Observe
pub mod Budgets
pub mod Recovery
pub mod Termination
pub mod Ledger
pub mod Query
mod Tests
