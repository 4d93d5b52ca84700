-- ===== src/Tests.antt =====
-- The theorems at concrete inputs.
mod Stores
mod Sessions
mod Routes
mod Entry
mod Addresses
mod Providers
mod Stored
mod Options
mod Tokens
mod Client
