-- ===== src/Sets.antt =====
-- internal/set: the dataset in memory.
pub mod Netip
pub mod Types
pub mod SipHash
pub mod Material
pub mod Canon
pub mod Heap
pub mod State
pub mod Planning
pub mod Load
pub mod Committing
pub mod Expiry
pub mod Ideal
pub mod Pipeline
