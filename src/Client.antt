-- ===== src/Client.antt =====
-- A client that follows the indexer from the beginning, as `pull_ledger_diff_from_sqlite`
-- (src/indexer/sync.rs) does: it pulls, counts what it got, and pulls from there.
pub mod Positions
pub mod Counts
pub mod Turns
pub mod Follows
