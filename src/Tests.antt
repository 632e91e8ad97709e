-- ===== src/Tests.antt =====
-- Runs on concrete inputs, and the theorems applied at inputs where their hypotheses hold.
mod Bench
mod Breakers
mod Tables
mod Shared
mod Routing
mod Streams
mod Jobs
mod Chunks
mod Research
mod Rollouts
mod RateLimits
mod Meters
mod Caches
mod Chats
mod Keyring
mod Gates
mod Searches
mod Ingests
mod Answers
