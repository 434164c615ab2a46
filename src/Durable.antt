-- ===== src/Durable.antt =====
-- The durable runtime kernel: ogra-desktop/src/core/durable-runtime-service.ts and
-- durable-runtime-types.ts.
pub mod Transaction
pub mod Lease
pub mod Frame
pub mod Effect
pub mod Repair
pub mod Edges
mod Tests
mod FrameTests
mod EffectTests
mod RepairTests
mod EdgesTests
