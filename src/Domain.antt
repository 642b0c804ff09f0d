-- ===== src/Domain.antt =====
-- internal/domain: the resources of the program and their validation.
pub mod Types
pub mod Id
pub mod Selectors
pub mod Bindings
pub mod Pools
pub mod Validation
pub mod Checksum
mod Tests
