-- ===== src/External/Rows.antt =====
-- The rows of the tables (src/types.rs, `Shard` and `Nullifier`; migrations/0_schema.sql).
use manta_indexer.Prelude.{ℕ, List}

-- `Vec<u8>`
abbrev pub Bytes : Type 0
Bytes = List ℕ

-- `utxo_index` is an `i64`, by its bit pattern.
pub record Shard : Type 0 where
  pub shard_index : ℕ
  pub utxo_index : ℕ
  pub utxo : Bytes
  pub full_incoming_note : Bytes

-- `idx` is an `i64`, by its bit pattern.
pub record Nullifier : Type 0 where
  pub idx : ℕ
  pub nullifier_commitment : Bytes
  pub outgoing_note : Bytes
