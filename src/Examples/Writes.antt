-- ===== src/Examples/Writes.antt =====
-- The writes of src/db.rs at concrete inputs, in the sample world.
use manta_indexer.Prelude.{◌+◌, ◌≡◌, refl, true, [], ◌∷◌, length, ◌==◌, ◌&&◌, ◌||◌, if◌then◌else◌}
use manta_indexer.External.{Bytes}
use manta_indexer.Store.{World, ok, err, indexer, wrong_little_endian_array}
use manta_indexer.Db.{
  insert_one_shard, has_shard, count_of_utxo, insert_one_nullifier, get_one_nullifier,
  update_or_insert_total_senders_receivers, get_total_senders_receivers,
}
use manta_indexer.Db.Calm.{count_of_utxo-calm, has_shard-calm}
use manta_indexer.Db.Writes.{insert_one_nullifier-reads, update-get_total}
use manta_indexer.Db.Shards.{insert_one_shard-counts}
use manta_indexer.Examples.Sample.{sample, world}

-- Index 0 has a row already.
insert_one_nullifier-reads_example :
    (w' : World sample) × (insert_one_nullifier sample 0 8 9 world ≡ (ok tt, w'))
    × ((get_one_nullifier sample 0 w').0
        ≡ (if 0 == 0 then ok (8, 9) else (get_one_nullifier sample 0 world).0))
insert_one_nullifier-reads_example = insert_one_nullifier-reads sample world refl 0 8 9 0 refl

abbrev two_bytes : Bytes
two_bytes = 1 ∷ 2 ∷ []

-- A total of two bytes.
update-get_total_example :
    (w' : World sample) × (update_or_insert_total_senders_receivers sample two_bytes world
      ≡ (ok tt, w'))
    × (get_total_senders_receivers sample w' ≡ (
      if length two_bytes == 16 then ok two_bytes else err (indexer wrong_little_endian_array),
      w',
    ))
update-get_total_example = update-get_total sample world refl two_bytes

-- Index 1 of shard 0, one of its two rows, once more.
insert_one_shard-counts_example :
    (w' : World sample) × (insert_one_shard sample 0 1 3 4 world ≡ (ok tt, w'))
    × (count_of_utxo sample 0 w' ≡ (ok (2 + (if 0 == 0 then 1 else 0)), w'))
    × (has_shard sample 0 1 w' ≡ (ok ((0 == 0 && 1 == 1) || true), w'))
insert_one_shard-counts_example =
    insert_one_shard-counts sample world refl 0 1 3 4 0 1 2 true
      (count_of_utxo-calm sample world refl 0) (has_shard-calm sample world refl 0 1)
