-- ===== src/Abac.antt =====
-- packages/security/src/abac.ts: attribute-based access control.
pub mod Value
pub mod Policy
pub mod Engine
pub mod Builder
pub mod Decision
pub mod Defaults
pub mod Roles
mod Examples
