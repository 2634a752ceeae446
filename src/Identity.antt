-- ===== src/Identity.antt =====
-- src/identity/service.ts: people, their identities on the platforms, and what groups they let in.
pub mod Principals
pub mod Pairing
pub mod Merge
pub mod Binding
pub mod Groups
pub mod Merged
pub mod Offers
pub mod Once
pub mod Confirmed
pub mod Repeat
pub mod Hosts
pub mod Hosted
pub mod Modes
pub mod Unbinding
pub mod Workspaces
