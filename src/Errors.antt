-- ===== src/Errors.antt =====
-- packages/contracts/src/errors: codes, descriptors and how a thrown value becomes one of them.
pub mod Types
pub mod Codes
pub mod Descriptor
pub mod Normalize
