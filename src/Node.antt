-- ===== src/Node.antt =====
-- The Node daemon (internal/node).
pub mod Reconnect
