-- ===== src/Domain/Checksum.antt =====
-- internal/domain/checksum.go and model_clone.go: the order of a snapshot's resources, the document that
-- is hashed, and WithChecksum. json.Marshal and the SHA-256 sum in hex are one parameter, `encode`. A
-- cloned value is the value.
pub mod Normal
pub mod Document
pub mod Rekeyed
pub mod Stamped
