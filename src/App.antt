-- ===== src/App.antt =====
-- services/app/src/lib: what the routes share.
pub mod RateLimit
pub mod Tests
