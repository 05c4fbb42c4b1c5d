-- ===== src/Lib.antt =====
-- A model of the backend of bandcamp-curate (backend/app): a crawl of Bandcamp fan, album and
-- track pages that fills a graph in a database, and the ranking of records computed from that
-- graph.
--
-- The program. A scan (backend/app/crawl/scan_service.py) is a row that the worker's poll claims
-- (backend/app/worker.py). It runs as a chain of short jobs. Each job puts the scan's seeds on the
-- crawl frontier, crawls one slice of it and queues the next job, until the frontier is empty or
-- the budget is spent; then the scan is curated and closed. A slice (backend/app/crawl/runner.py)
-- claims entries of the frontier (backend/app/crawl/frontier.py), crawls each, and closes it out.
-- A crawl fetches pages through a waterfall of scraper providers (backend/app/scraping/gateway.py)
-- behind a circuit breaker each, a token bucket and a cache. Curation
-- (backend/app/curation/engine.py) scores what a user's taste-neighbours own.
--
-- The files.
--   Base      shared types, Boolean tests, list queries, texts, error results.
--   Frontier  backend/app/crawl/frontier.py. Tables has the rows, Enqueue, Claim and Marks the
--             operations by their names. A table is a list of rows with the next id and the scans
--             that exist. Interleaving has a run of several crawlers as a list of committed
--             writes, each with what its crawler had read.
--   Scraping  backend/app/scraping/: Circuit, RateLimit, Gateway and Cache, one file each.
--   Graph     backend/app/bandcamp/mapper.py: Tables has the rows and the records that the parser
--             hands on, Keyed the check-then-insert, Entities, Fans, Edges and Ingest the operations
--             by their names. Collection has a fan's collection without rows and ids.
--   Crawl     backend/app/crawl/runner.py: Database has the budget, Runner `process_one`, Process
--             `process_entry`, Runner/Slices the worker of `run_until_empty` and Runner/Pool several
--             of them, as a sequence of their turns between two awaits. For
--             backend/app/crawl/service.py, Fanout has `_enqueue_items`, Visit
--             `crawl_fan_collection`, Pages `crawl_album` and `crawl_track`; Replay is
--             backend/app/crawl/replay.py.
--   Scans     backend/app/crawl/scan_service.py: Queue has the creation, claiming and reviving of
--             scans, Start `start_scan`, Slice `advance_scan`, Finish `finalize_scan`,
--             `fail_scan`, `run_scan` and the job of backend/app/worker.py. Curate has `curate`
--             and `store_recommendations`, Mine the ranking of a user's own collection, and Operator
--             the legacy chain of backend/app/crawl/seed.py and backend/app/worker.py.
--   Curation  backend/app/curation/engine.py: Exclusions, Neighbours, Scoring, and Ranking, which
--             composes them into `compute_recommendations`.
--             ColdStart has `cold_start_diagnostics`, SeedTags `seed_tags`, and Sizes
--             `neighbour_size_report`.
--   Api       backend/app/api and backend/app/auth: Likes, Blocks, Feed (with Feed/Pages),
--             Patterns for the search by substrings, Facets, Stats, Recompute, Scans,
--             Collection and Accounts. Ownership has what the endpoints share,
--             backend/app/curation/generation.py among it.
--   Urls      the regular expressions on URLs, as walks along the text.
--   Tests     the theorems at concrete inputs.
--
-- Conventions. A time is a number and an argument. An exception is a value of `Error`, and the
-- value also stands for its text. A commit is the state that an operation returns; where the code
-- rolls back, the operation returns the state that it was given. What other crawlers commit during
-- an operation is a function argument, so that a theorem about it holds for every interleaving. A
-- set is a list that is read by membership. Loops are structural: attempts and slices are counted
-- down from the code's own limits, which are parameters or constants (3 attempts at an entry, 8
-- claims, `max_slices`, `pages_per_visit`), so no fuel is added.
--
-- Parameters. The reply of a provider's backend to each call; the Redis client with its state,
-- and the module `json`; the digest of `extra`; floats with their operations and weights; what
-- crawling an entry does to the database in `process_one` (`work`), a cancellation and a failed
-- closing write included, and what crawling a slice does (`crawl`), which may be anything; the
-- rendered and parsed pages and the pagination clients of a visit (`Clients`, `PageClients`),
-- which act on a network of any type; what other workers commit to the graph's tables during an
-- insert (`Workers`); bcrypt and PyJWT (`Crypto`); the collation of names, the case folding of
-- the database and the rounding of scores. Where two requests may run at once, a handler is
-- given the rows that its query saw.
--
-- Not modelled. The parsing of pages, the backends of the providers and the pagination clients
-- (backend/app/bandcamp, backend/app/scraping/providers), which read external formats; routing,
-- serialisation and the health check; the start-up of the worker, migrations, sessions and
-- settings; scripts, the tools under team and the frontend.
pub mod Base
pub mod Frontier
pub mod Scraping
pub mod Crawl
pub mod Curation
pub mod Graph
pub mod Scans
pub mod Api
pub mod Urls
pub mod Tests
