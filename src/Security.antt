-- ===== src/Security.antt =====
-- The security plane (glc/security): rate limits.
pub mod RateLimits
pub mod Pairing
pub mod Ssrf
