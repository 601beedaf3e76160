-- ===== src/Cache.antt =====
-- src/indexer/cache.rs: the ledger cache `LEDGER_LRU`, keyed by `Cache.Keys`, with its batched and
-- single reads and writes. The store itself is the `lru` crate's, behind `External.LruCache`.
pub mod Keys
pub mod Laws
pub mod Sharded
use manta_indexer.Prelude.{ℕ, Option, none, some, List, [], ◌∷◌, map}
use manta_indexer.External.{Bytes, External, LruCache}
use manta_indexer.Store.{Action, Result, ok, err, World, with_cache, pure, ◌>>=◌}
use Keys.{receiver_key, sender_key}

-- The loops of `get_batch_lru` and `put_batch_lru`, over any LRU cache.
module _ (lru : LruCache) where
  unfoldable pub get_all : List ℕ → lru.Cache → List (Option Bytes) × lru.Cache
  get_all [] c = ([], c)
  get_all (k ∷ ks) c = let (v, c') = lru.get c k in let (vs, c'') = get_all ks c' in (v ∷ vs, c'')

  unfoldable pub put_all : List (ℕ × Bytes) → lru.Cache → lru.Cache
  put_all [] c = c
  put_all ((k, v) ∷ kvs) c = put_all kvs (lru.put c k v)

-- `result.pop().unwrap_or_default()`
abbrev pub pop_or_default : {A : Type 0} → List (Option A) → Option A
pop_or_default [] = none
pop_or_default (v ∷ []) = v
pop_or_default (v ∷ v' ∷ vs) = pop_or_default (v' ∷ vs)

module _ (e : External) where
  unfoldable pub get_batch_lru : List ℕ → Action e (List (Option Bytes))
  unfolding with_cache get_all
  get_batch_lru keys = with_cache (get_all e.lru keys)

  unfoldable pub put_batch_lru : List (ℕ × Bytes) → Action e (Unit {0})
  unfolding with_cache put_all
  put_batch_lru v = with_cache λ c. (tt, put_all e.lru v c)

  unfoldable pub get_receiver : ℕ → ℕ → Action e (Option Bytes)
  unfolding get_batch_lru ◌>>=◌
  get_receiver shard_idx utxo_idx = do
    found ← get_batch_lru (receiver_key shard_idx utxo_idx ∷ [])
    pure (pop_or_default found)

  unfoldable pub get_sender : ℕ → Action e (Option Bytes)
  unfolding get_batch_lru ◌>>=◌
  get_sender sender_index = do
    found ← get_batch_lru (sender_key sender_index ∷ [])
    pure (pop_or_default found)

  unfoldable pub get_batch_shard_receiver : ℕ → List ℕ → Action e (List (Option Bytes))
  unfolding get_batch_lru
  get_batch_shard_receiver shard_idx utxo_idxs =
      get_batch_lru (map (receiver_key shard_idx) utxo_idxs)

  unfoldable pub get_batch_sender : List ℕ → Action e (List (Option Bytes))
  unfolding get_batch_lru
  get_batch_sender sender_idxs = get_batch_lru (map sender_key sender_idxs)

  unfoldable pub put_receiver : ℕ → ℕ → Bytes → Action e (Unit {0})
  unfolding put_batch_lru
  put_receiver shard_idx utxo_idx r = put_batch_lru ((receiver_key shard_idx utxo_idx, r) ∷ [])

  -- The index is a `u8` here.
  unfoldable pub put_sender : ℕ → Bytes → Action e (Unit {0})
  unfolding put_batch_lru
  put_sender sender_idx s = put_batch_lru ((sender_key sender_idx, s) ∷ [])

  unfoldable pub put_batch_receiver : ℕ → List (ℕ × Bytes) → Action e (Unit {0})
  unfolding put_batch_lru
  put_batch_receiver shard_idx r = put_batch_lru (map (λ x. (receiver_key shard_idx x.0, x.1)) r)

  unfoldable pub put_batch_sender : List (ℕ × Bytes) → Action e (Unit {0})
  unfolding put_batch_lru
  put_batch_sender s = put_batch_lru (map (λ x. (sender_key x.0, x.1)) s)

  unfoldable pub lru_size : Action e ℕ
  unfolding with_cache
  lru_size = with_cache λ c. (e.lru.len c, c)
