-- ===== src/Dataplane.antt =====
-- internal/dataplane: the engine that admits sessions and streams on a node.
pub mod Engine
pub mod Egress
pub mod Routing
