-- ===== src/Tokens.antt =====
-- Email tokens: infrastructure/repositories/email_token_cache_repository.py.
pub mod Refresh
pub mod EmailTokens
pub mod OneTime
pub mod Payload
