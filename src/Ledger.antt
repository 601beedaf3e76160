-- ===== src/Ledger.antt =====
-- The ledger that the database and the cache stand for: the receivers of each shard, in the order
-- of their indices, and the senders. `Stores` and `Holds` say that tables and a cache agree with it.
pub mod Reads
pub mod Growth
use manta_indexer.Prelude.{
  ℕ, ◌≤◌, ◌<◌, ◌%◌, ◌^◌, ◌≡◌, List, [], map, some, length, filter, numbered, get_elem?,
}
use manta_indexer.External.{Bytes, Shard, Nullifier, External}
use manta_indexer.Types.{Receiver, Sender}
use manta_indexer.Store.{Tables, World}
use manta_indexer.Db.{in_shard}
use manta_indexer.Cache.Keys.{receiver_key, sender_key}
use manta_indexer.Cache.Laws.{Entries}

module _ (e : External) where
  pub record Ledger : Type 0 where
    pub shard : ℕ → List (Receiver e)
    pub senders : List (Sender e)

  abbrev pub shard_row : ℕ → ℕ × Receiver e → Shard
  shard_row s (u, (utxo, note)) = record {
    shard_index = s;
    utxo_index = u;
    utxo = e.utxo.encode utxo;
    full_incoming_note = e.note.encode note;
  }

  abbrev pub nullifier_row : ℕ × Sender e → Nullifier
  nullifier_row (u, (nc, on)) = record {
    idx = u;
    nullifier_commitment = e.commitment.encode nc;
    outgoing_note = e.outgoing.encode on;
  }

  -- The tables hold the ledger: no gap, no row twice, each row at its index.
  pub record Stores (t : Tables) (l : Ledger) : Type 0 where
    pub shards : (s : ℕ) → filter (in_shard s) t.shards ≡ map (shard_row s) (numbered 0 (l.shard s))
    pub nullifiers : t.nullifier ≡ map nullifier_row (numbered 0 l.senders)

  -- What the cache may hold under a key: the element of the ledger that the key stands for.
  pub record Held (l : Ledger) (k : ℕ) (v : Bytes) : Type 0 where
    pub of_receiver :
        (s u : ℕ)
        → s < 256
        → k ≡ receiver_key s u
        → (x : Receiver e) × (get_elem? (l.shard s) (u % 2 ^ 48) ≡ some x)
          × (v ≡ e.receiver.encode x)
    pub of_sender :
        (u : ℕ)
        → k ≡ sender_key u
        → (x : Sender e) × (get_elem? l.senders (u % 2 ^ 48) ≡ some x) × (v ≡ e.sender.encode x)

  abbrev pub Holds : e.lru.Cache → Ledger → Type 0
  Holds c l = Entries e.lru (Held l) c

  -- The indices fit the keys of the cache, and the count of the senders fits its `u32`.
  pub record Fits (l : Ledger) : Type 0 where
    pub shards_fit : (s : ℕ) → length (l.shard s) ≤ 2 ^ 48
    pub senders_fit : length l.senders < 2 ^ 32

  -- No statement to come fails, and tables and cache agree with the ledger.
  pub record Serves (w : World e) (l : Ledger) : Type 0 where
    pub calm : w.faults ≡ []
    pub stores : Stores w.tables l
    pub holds : Holds w.cache l
