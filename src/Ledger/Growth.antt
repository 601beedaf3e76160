-- ===== src/Ledger/Growth.antt =====
-- A ledger that grows at the ends of its lists, and the checkpoint that marks where they end.
use manta_indexer.Prelude.{ℕ, ◌<◌, ◌≡◌, ◌++◌, length, get_or, get_elem?-append_left}
use manta_indexer.External.{Bytes, External}
use manta_indexer.Types.{SenderChunk, ReceiverChunk, Checkpoint}
use manta_indexer.Ledger.{Ledger, Held, Holds}

module _ (e : External) where
  abbrev pub extend : Ledger e → (ℕ → ReceiverChunk e) → SenderChunk e → Ledger e
  extend l added new = record { shard = λ s. l.shard s ++ added s; senders = l.senders ++ new }

  -- The checkpoint of a ledger: the length of each of the 256 shards, and of the senders.
  pub record Marks (c : Checkpoint) (l : Ledger e) : Type 0 where
    pub width : length c.receiver_index ≡ 256
    pub shards : (s : ℕ) → s < 256 → get_or c.receiver_index s 0 ≡ length (l.shard s)
    pub senders : c.sender_index ≡ length l.senders

  module _ (l : Ledger e) (added : ℕ → ReceiverChunk e) (new : SenderChunk e) where
    Held-extend : (k : ℕ) (v : Bytes) → Held e l k v → Held e (extend l added new) k v
    Held-extend k v h = record {
      of_receiver = λ s u lt q.
          let (x, found, encoded) = h.of_receiver s u lt q in
          (x, get_elem?-append_left (l.shard s) (added s) _ x found, encoded);
      of_sender = λ u q.
          let (x, found, encoded) = h.of_sender u q in
          (x, get_elem?-append_left l.senders new _ x found, encoded);
    }

    -- A cache that agrees with a ledger agrees with what it grows to.
    pub Holds-extend : (c : e.lru.Cache) → Holds e c l → Holds e c (extend l added new)
    Holds-extend c holds k v hit = Held-extend k v (holds k v hit)
