-- ===== src/Cache/Sharded.antt =====
-- src/indexer/cache.rs: `ShardThreadSafeLru`, several LRU caches under one, a key in the cache of its
-- remainder. The locks are taken one after the other.
pub mod Groups
pub mod Fill
pub mod Reads
pub mod Writes
use manta_indexer.Prelude.{
  ℕ, zero, suc, ◌%◌, Option, none, some, List, [], ◌∷◌, length, get_elem?, set, replicate, numbered,
}
use manta_indexer.External.{Bytes, LruCache}
use manta_indexer.Cache.{put_all}
use manta_indexer.Sync.{push_entry}

-- A key with the position of its value in the result.
abbrev pub Keys : Type 0
Keys = List (ℕ × ℕ)

-- The loop over the keys, and the loop over the pairs, from a map on.
unfoldable pub shard_keys : ℕ → Keys → List (ℕ × Keys) → List (ℕ × Keys)
shard_keys shard_num [] groups = groups
shard_keys shard_num ((idx, key) ∷ keys) groups =
    shard_keys shard_num keys (push_entry (key % shard_num) (idx, key) groups)

unfoldable pub shard_vs :
    ℕ → List (ℕ × Bytes) → List (ℕ × List (ℕ × Bytes)) → List (ℕ × List (ℕ × Bytes))
shard_vs shard_num [] groups = groups
shard_vs shard_num ((k, v) ∷ vs) groups =
    shard_vs shard_num vs (push_entry (k % shard_num) (k, v) groups)

module _ (lru : LruCache) where
  pub record ShardThreadSafeLru : Type 0 where
    pub shard_num : ℕ
    pub maps : List lru.Cache

  -- The inner loop of `batch_get`, under the lock of one cache.
  unfoldable pub read_keys :
      Keys → lru.Cache → List (Option Bytes) → List (Option Bytes) × lru.Cache
  read_keys [] cache result = (result, cache)
  read_keys ((idx, key) ∷ keys) cache result =
      let (v, cache') = lru.get cache key in read_keys keys cache' (set result idx v)

  -- The outer loop, `none` where an index is out of range.
  unfoldable pub read_maps :
      List (ℕ × Keys)
      → List lru.Cache
      → List (Option Bytes)
      → Option (List (Option Bytes) × List lru.Cache)
  unfolding read_keys
  read_maps [] maps result = some (result, maps)
  read_maps ((shard, keys) ∷ groups) maps result = elim (get_elem? maps shard) [
    | none ↦ none
    | some cache ↦
        let (result', cache') = read_keys keys cache result in
        read_maps groups (set maps shard cache') result'
  ]

  unfoldable pub write_maps : List (ℕ × List (ℕ × Bytes)) → List lru.Cache → Option (List lru.Cache)
  write_maps [] maps = some maps
  write_maps ((shard, vs) ∷ groups) maps = elim (get_elem? maps shard) [
    | none ↦ none
    | some cache ↦ write_maps groups (set maps shard (put_all lru vs cache))
  ]

  -- `order` is how the HashMap is iterated; `none` is a panic. A remainder by 0 panics too, which the
  -- theorems rule out.
  unfoldable pub batch_get :
      (List (ℕ × Keys) → List (ℕ × Keys))
      → List ℕ
      → ShardThreadSafeLru
      → Option (List (Option Bytes) × List lru.Cache)
  unfolding shard_keys read_maps
  batch_get order keys s =
      read_maps (order (shard_keys s.shard_num (numbered 0 keys) [])) s.maps
        (replicate (length keys) none)

  unfoldable pub batch_put :
      (List (ℕ × List (ℕ × Bytes)) → List (ℕ × List (ℕ × Bytes)))
      → List (ℕ × Bytes)
      → ShardThreadSafeLru
      → Option (List lru.Cache)
  unfolding shard_vs write_maps
  batch_put order v s = write_maps (order (shard_vs s.shard_num v [])) s.maps
