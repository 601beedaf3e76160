-- ===== src/Cache/Keys/Tests.antt =====
-- The unit test of src/indexer/cache.rs, and the theorems about keys at concrete indices.
use manta_indexer.Prelude.{◌≡◌, refl}
use manta_indexer.Cache.Keys.{receiver_key, sender_key}

test_key :
    (receiver_key 10 234523 ≡ 1155736254374188059) × (sender_key 234588 ≡ 2305843009213928540)
unfolding receiver_key sender_key
test_key = (refl, refl)
