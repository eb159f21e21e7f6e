-- ===== src/Authority.antt =====
-- packages/authority/src/index.ts: mandates, the deterministic policy decision and the life of
-- a mandate.
pub mod Types
mod Samples
pub mod Evaluate
pub mod Inputs
pub mod Normalize
pub mod Store
pub mod Mandates
pub mod Period
pub mod Envelope
pub mod Numeric
pub mod Decisions
pub mod Usage
