-- ===== src/Tests.antt =====
-- Runs of the theorems at concrete inputs.
mod Fixtures
mod Actions
mod Virtual
mod Positions
mod Prices
mod Tasks
mod Storage
mod Locks
mod Vault
mod Words
mod Parties
mod Exchanges
mod Answers
mod Commits
mod Removals
mod Rents
