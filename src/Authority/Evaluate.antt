-- ===== src/Authority/Evaluate.antt =====
-- `evaluateAuthorityPolicy` of packages/authority/src/index.ts.
pub mod Checks
pub mod Decide
pub mod Inversion
pub mod Spec
pub mod Sound
pub mod Allowed
mod Tests
