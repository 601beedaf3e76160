-- ===== src/Sync/Answers.antt =====
-- src/indexer/sync.rs and src/indexer/pull.rs together: a client that pulls after the indexer has
-- followed a full node reads the full node's ledger.
use manta_indexer.External.{External}
use manta_indexer.Ledger.{Ledger}
