-- ===== src/Examples/Caches.antt =====
-- The sharded cache at concrete inputs: two caches, and keys of both.
use mathlib.Core.List.Permᴰ
use manta_indexer.Prelude.{ℕ, ◌≡◌, refl, arith, some, List, [], ◌∷◌, map, get_elem?}
use manta_indexer.External.{Bytes}
use manta_indexer.Cache.{put_all}
use manta_indexer.Cache.Sharded.{ShardThreadSafeLru, batch_get, batch_put}
use manta_indexer.Cache.Sharded.Reads.{Formed, Kept, look, batch_get-look}
use manta_indexer.Cache.Sharded.Writes.{of_shard, batch_put-puts}
use manta_indexer.Examples.Sample.{sample}

abbrev two_caches : ShardThreadSafeLru sample.lru
two_caches = record { shard_num = 2; maps = ((4, 9 ∷ []) ∷ []) ∷ [] ∷ [] }

two_caches-Formed : Formed sample.lru two_caches
two_caches-Formed = (omega arith, refl)

abbrev batch : List (ℕ × Bytes)
batch = (5, 1 ∷ []) ∷ (6, 2 ∷ []) ∷ (5, 3 ∷ []) ∷ []

batch_get-look_example :
    (maps : List sample.lru.Cache) × (batch_get sample.lru (λ m. m) (4 ∷ 3 ∷ 4 ∷ []) two_caches
      ≡ some (map (look sample.lru two_caches) (4 ∷ 3 ∷ 4 ∷ []), maps))
    × Kept sample.lru two_caches maps
batch_get-look_example =
    batch_get-look sample.lru two_caches (λ m. m) (4 ∷ 3 ∷ 4 ∷ []) (λ m. Permᴰ.refl m)
      two_caches-Formed

batch_put-puts_example :
    (maps : List sample.lru.Cache) × (batch_put sample.lru (λ m. m) batch two_caches ≡ some maps)
    × ((j : ℕ) (c : sample.lru.Cache)
        → get_elem? two_caches.maps j ≡ some c
        → get_elem? maps j ≡ some (put_all sample.lru (of_shard 2 j batch) c))
batch_put-puts_example =
    batch_put-puts sample.lru two_caches (λ m. m) batch (λ m. Permᴰ.refl m) two_caches-Formed
