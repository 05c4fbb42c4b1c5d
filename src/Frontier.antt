-- ===== src/Frontier.antt =====
-- backend/app/crawl/frontier.py and the rows of `crawl_frontier` (backend/app/db/models.py): the
-- per-scan work queue. A query is a function of the rows; an update returns the new table. What
-- `datetime.now` and the column's `onupdate` read is the argument `now`, in seconds.
pub mod Tables
pub mod Enqueue
pub mod Claim
pub mod Marks
pub mod Rows
pub mod Valid
pub mod Interleaving
pub mod Exclusive
pub mod Order
pub mod Claiming
