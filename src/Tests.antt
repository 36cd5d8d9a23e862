-- ===== src/Tests.antt =====
-- The theorems at concrete inputs.
mod Samples
mod Engines
mod Tokens
mod Limits
mod Stores
mod Site
mod Codecs
