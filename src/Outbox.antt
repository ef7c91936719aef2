-- ===== src/Outbox.antt =====
-- The transactional outbox (packages/backend/src/closeros/domain/outbox.py and its services).
pub mod Types
pub mod Validate
pub mod Backoff
pub mod Job
pub mod Operations
pub mod Calls
pub mod Contract
pub mod Invariant
pub mod Lifecycle
pub mod Rows
pub mod Database
pub mod Repository
pub mod Service
pub mod Publisher
pub mod Processor
pub mod Reconciliation
mod Examples
