-- ===== src/External.antt =====
-- What the indexer calls and does not implement, as one interface: the SCALE codec of the pallet's
-- types, the Merkle forest's `tree_index`, the `lru` crate's cache and SQLite's choices. The laws
-- are the documented behaviour of those crates.
mod Rows
pub use Rows.*
use mathlib.Core.List.{Permᴰ}
use manta_indexer.Prelude.{ℕ, ◌<◌, ◌≡◌, ◌≢◌, ◌⊎◌, Option, none, some, List, map, member, false}

-- `parity-scale-codec`: `encode`, and `decode` on a whole slice.
pub record Codec (A : Type 0) : Type 0 where
  pub encode : A → Bytes
  pub decode : Bytes → Option A
  pub decode-encode : (a : A) → decode (encode a) ≡ some a

-- `lru::LruCache<u64, Vec<u8>>` with room for an entry. `peek` reads and changes nothing; `get`
-- reads the same and changes only the order of use; `put` may evict any other key.
pub record LruCache : Type 1 where
  pub Cache : Type 0
  pub peek : Cache → ℕ → Option Bytes
  pub get : Cache → ℕ → Option Bytes × Cache
  pub put : Cache → ℕ → Bytes → Cache
  pub len : Cache → ℕ
  pub get-eq-peek : (c : Cache) (k : ℕ) → (get c k).0 ≡ peek c k
  pub peek-get : (c : Cache) (k j : ℕ) → peek (get c k).1 j ≡ peek c j
  pub peek-put_self : (c : Cache) (k : ℕ) (v : Bytes) → peek (put c k v) k ≡ some v
  pub peek-put_ne :
      (c : Cache) (k j : ℕ) (v : Bytes)
      → j ≢ k
      → (peek (put c k v) j ≡ peek c j) ⊎ (peek (put c k v) j ≡ none)

-- SQLite: rows come in any order where a query has no ORDER BY, and a row inserted with no rowid
-- gets a new one.
pub record Sqlite : Type 0 where
  pub arrange_shards : List Shard → List Shard
  pub arrange_nullifiers : List Nullifier → List Nullifier
  pub next_rowid : List Nullifier → ℕ
  pub arrange_shards-perm : (l : List Shard) → Permᴰ (arrange_shards l) l
  pub arrange_nullifiers-perm : (l : List Nullifier) → Permᴰ (arrange_nullifiers l) l
  pub next_rowid-fresh : (l : List Nullifier) → member (next_rowid l) (map (λ r. r.idx) l) ≡ false

pub record External : Type 1 where
  pub Utxo : Type 0
  pub FullIncomingNote : Type 0
  pub NullifierCommitment : Type 0
  pub OutgoingNote : Type 0
  pub utxo : Codec Utxo
  pub note : Codec FullIncomingNote
  pub commitment : Codec NullifierCommitment
  pub outgoing : Codec OutgoingNote
  -- the codecs of the pairs (Utxo, FullIncomingNote) and (NullifierCommitment, OutgoingNote)
  pub receiver : Codec (Utxo × FullIncomingNote)
  pub sender : Codec (NullifierCommitment × OutgoingNote)
  -- the codecs of `Vec` of such pairs, and `base64::encode` of bytes
  pub receivers : Codec (List (Utxo × FullIncomingNote))
  pub senders : Codec (List (NullifierCommitment × OutgoingNote))
  pub base64 : Codec Bytes
  -- `Vec<u8>::try_into` at `NullifierCommitment`
  pub commitment_of_bytes : Bytes → Option NullifierCommitment
  -- `MerkleTreeConfiguration::tree_index` of the item hash; `none` where `try_into` fails
  pub tree_index : Utxo → Option ℕ
  pub tree_index-lt : (u : Utxo) (i : ℕ) → tree_index u ≡ some i → i < 256
  -- `HashMap::iter`: the entries in any order, the same while the map does not change
  pub iterate :
      List (ℕ × List (Utxo × FullIncomingNote)) → List (ℕ × List (Utxo × FullIncomingNote))
  pub iterate-perm : (m : List (ℕ × List (Utxo × FullIncomingNote))) → Permᴰ (iterate m) m
  pub lru : LruCache
  pub sqlite : Sqlite
