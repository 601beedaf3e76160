-- ===== src/Examples.antt =====
-- A concrete instance of what the indexer calls, with a small ledger, and the theorems at concrete
-- inputs on it.
pub mod Sample
mod Runs
mod Syncs
mod Services
mod Caches
mod Relays
mod Responses
mod Writes
mod Clients
mod Nodes
mod Metrics
mod Traffic
