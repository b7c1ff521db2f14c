-- ===== src/Gates.antt =====
-- Small guards that decide by time: revoked tokens, rate-limited notifications, and reconnection delays.
pub mod Blocklist
pub mod Backoff
pub mod RateLimit
