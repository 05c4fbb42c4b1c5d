-- ===== src/Curation.antt =====
-- backend/app/curation/engine.py: scoring what a scan's taste-neighbours own.
pub mod ColdStart
pub mod SeedTags
pub mod Sizes
pub mod Tables
pub mod Exclusions
pub mod Neighbours
pub mod Scoring
pub mod Ranking
