-- ===== src/Http.antt =====
-- clients/base.py: the HTTP client, its responses, its read cache and its retries.
pub mod Response
pub mod Cache
pub mod Coherence
pub mod Retry
mod Examples
