-- ===== src/Crawl.antt =====
-- backend/app/crawl: driving the frontier.
pub mod Database
pub mod Runner
pub mod Fanout
pub mod Visit
pub mod Replay
pub mod Pages
pub mod Process
