-- ===== src/Scans.antt =====
-- Scans: backend/app/crawl/scan_service.py, the jobs of backend/app/worker.py and the curation of
-- one scan (backend/app/curation/engine.py).
pub mod Tables
pub mod Queue
pub mod Curate
pub mod Start
pub mod Slice
pub mod Finish
pub mod Operator
pub mod Mine
