-- ===== src/Outbound.antt =====
-- Messages to customers: their approval, the messaging policy and the delivery by a provider
-- (packages/backend/src/closeros/domain/outbound_message.py and its services).
pub mod Types
pub mod Message
pub mod Policy
pub mod Store
pub mod Service
pub mod Provider
pub mod Handler
pub mod Schedule
mod Examples
