-- ===== src/Api.antt =====
-- The endpoints of backend/app/api that have logic of their own.
pub mod Collection
pub mod Facets
pub mod Stats
pub mod Scans
pub mod Accounts
pub mod Recompute
pub mod Feed
pub mod Patterns
pub mod Ownership
pub mod Likes
pub mod Blocks
