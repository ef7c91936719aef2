-- ===== src/Authentication.antt =====
-- Authentication sessions and one-time tokens
-- (packages/backend/src/closeros/domain/authentication*.py and
-- packages/backend/src/closeros/application/authentication_issuance.py).
pub mod Types
pub mod Sessions
pub mod Tokens
pub mod Policy
pub mod Issuance
pub mod Consumption
mod Examples
