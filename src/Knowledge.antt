-- ===== src/Knowledge.antt =====
-- The knowledge base of a tenant: how a document is cut into chunks
-- (packages/backend/src/closeros/application/knowledge_chunking.py).
pub mod Chunking
mod Examples
