-- ===== src/Verification.antt =====
-- packages/verification/src/index.ts: the deterministic verification of a transfer.
pub mod Types
pub mod Numbers
pub mod Evidence
pub mod Checks
pub mod Outcome
pub mod Approved
pub mod Settled
pub mod Providers
pub mod Settlement
mod Tests
