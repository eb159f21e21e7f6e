-- ===== src/Router.antt =====
-- packages/router/src/index.ts: which Workers and which implementations of capabilities serve a
-- request.
pub mod Types
pub mod Networks
pub mod Eligibility
pub mod Order
pub mod Graph
pub mod Team
pub mod Routes
pub mod Plan
mod Samples
