-- ===== src/Limits.antt =====
-- user-server/user_server/llm/rate_limit.py: the token bucket before the LLM proxy.
pub mod Bucket
pub mod Rate
pub mod Counter
pub mod Counted
mod Tests
