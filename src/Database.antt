-- ===== src/Database.antt =====
-- voice_agent/platform/infrastructure/db and cache: failures and what they mean, sessions, the
-- runtime baseline, and the Redis client.
pub mod Failures
pub mod Causes
pub mod Sessions
pub mod Baseline
mod Tests
