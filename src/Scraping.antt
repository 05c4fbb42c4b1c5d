-- ===== src/Scraping.antt =====
-- backend/app/scraping: the provider waterfall with its circuit breakers and its rate limiter.
pub mod Circuit
pub mod RateLimit
pub mod Gateway
pub mod Cache
