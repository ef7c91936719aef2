-- ===== src/Metrics.antt =====
-- The metrics of a tenant and of its managers
-- (packages/backend/src/closeros/domain/metrics.py and application/metrics_engine.py).
pub mod Statistics
pub mod Snapshot
pub mod Source
pub mod Attribution
pub mod Engine
mod Examples
