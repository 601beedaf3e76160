-- ===== src/Types.antt =====
-- The data that the indexer exchanges (src/types.rs, from the pallet): checkpoints, ledger chunks
-- and responses.
use manta_indexer.Prelude.{ℕ, Bool, List, replicate}
use manta_indexer.External.{Bytes, External}

-- `MerkleTreeConfiguration::FOREST_WIDTH`
abbrev pub forest_width : ℕ
forest_width = 256

-- `ReceiverIndexArray`, `[usize; FOREST_WIDTH]`
abbrev pub ReceiverIndexArray : Type 0
ReceiverIndexArray = List ℕ

pub record Checkpoint : Type 0 where
  pub receiver_index : ReceiverIndexArray
  pub sender_index : ℕ

-- `Checkpoint::default()`
abbrev pub default_checkpoint : Checkpoint
default_checkpoint = record { receiver_index = replicate forest_width 0; sender_index = 0 }

module _ (e : External) where
  abbrev pub Receiver : Type 0
  Receiver = e.Utxo × e.FullIncomingNote

  abbrev pub Sender : Type 0
  Sender = e.NullifierCommitment × e.OutgoingNote

  abbrev pub ReceiverChunk : Type 0
  ReceiverChunk = List Receiver

  abbrev pub SenderChunk : Type 0
  SenderChunk = List Sender

  pub record PullResponse : Type 0 where
    pub should_continue : Bool
    pub receivers : ReceiverChunk
    pub senders : SenderChunk
    pub senders_receivers_total : Bytes
