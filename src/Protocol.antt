-- ===== src/Protocol.antt =====
-- backend/internal/protocol: the operations that replicas exchange and the messages they travel in.
pub mod Operations
pub mod Messages
pub mod Decoding
