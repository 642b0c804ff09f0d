-- ===== src/Afdp.antt =====
-- The AFDP/1 data-plane protocol (internal/afdp).
pub mod Errors
pub mod Bytes
pub mod Datagram
pub mod Reassembly
pub mod Fragments
pub mod Control
pub mod Identity
pub mod Session
