-- ===== src/Graph.antt =====
-- The graph that crawls fill: backend/app/bandcamp/mapper.py, on the tables of
-- backend/app/db/models.py and the records of backend/app/bandcamp/parse.py.
pub mod Keyed
pub mod Tables
pub mod Entities
pub mod Fans
pub mod Edges
pub mod Collection
pub mod Ingest
