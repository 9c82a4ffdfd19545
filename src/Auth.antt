-- ===== src/Auth.antt =====
-- app/auth: the login rate limiter, the session store and the HTTP middleware. Times are
-- nanoseconds on one clock, and an operation reads the clock once.
pub mod RateLimit
pub mod Sessions
pub mod Middleware
mod Tests
