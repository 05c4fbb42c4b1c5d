-- ===== src/Tests.antt =====
-- The theorems at concrete inputs, and runs of the definitions.
mod Logins
mod Feeds
mod Feedback
mod Queue
mod Providers
mod Ranks
mod Chains
mod Visits
mod Pages
mod Graphs
mod Slices
