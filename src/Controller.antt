-- ===== src/Controller.antt =====
-- internal/controller: the control plane's decisions.
pub mod Ports
pub mod Scheduler
pub mod Idempotency
pub mod Obfuscation
pub mod Assignments
pub mod Leadership
pub mod Limits
pub mod ChangeBus
