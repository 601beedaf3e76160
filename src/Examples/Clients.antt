-- ===== src/Examples/Clients.antt =====
-- A client that follows the indexer's database, at a concrete ledger: one receiver, in shard 7.
use manta_indexer.Prelude.{◌≡◌, refl, some, [], ◌∷◌, arith, replicate, Bool-cases, inl, inr, ◌==◌}
use manta_indexer.Types.{Checkpoint, default_checkpoint}
use manta_indexer.Store.{World, ok}
use manta_indexer.Ledger.{Serves, shard_row}
use manta_indexer.Sync.{finished, follow_sqlite}
use manta_indexer.Client.Counts.{InPlace}
use manta_indexer.Client.Turns.{Roomy}
use manta_indexer.Client.Follows.{AtEnd, Totalled, follow_sqlite-AtEnd}
use manta_indexer.Examples.Sample.{sample}
use manta_indexer.Examples.Syncs.{whole, whole-Fits}

abbrev whole_world : World sample
whole_world = record {
  tables = record {
    shards = shard_row sample 7 (0, (7, 8)) ∷ [];
    nullifier = [];
    senders_receivers_total = some (replicate 16 0);
  };
  cache = [];
  faults = [];
}

whole_world-Serves : Serves sample whole_world whole
whole_world-Serves = record {
  calm = refl;
  stores = record { shards = λ s. ground arith; nullifiers = refl };
  holds = λ k v h. absurd (cc h);
}

whole_world-Totalled : Totalled sample whole_world
whole_world-Totalled = record { total = replicate 16 0; stored = refl; size = refl }

whole-InPlace : InPlace sample whole
whole-InPlace s = elim (Bool-cases (s == 7)) [
  | inl same ↦ let at_seven : s ≡ 7 = ground (arith, same) in rw at_seven (refl, tt)
  | inr other ↦ rw other tt
]

whole-Roomy : Roomy sample whole
whole-Roomy s = ground arith

-- Two turns are enough for one receiver.
follow_sqlite-AtEnd_example :
    (c' : Checkpoint) × (w' : World sample) × (follow_sqlite sample 2 default_checkpoint
        default_checkpoint whole_world
      ≡ (ok (finished c'), w'))
    × AtEnd sample whole whole-InPlace whole-Roomy whole-Fits default_checkpoint c'
    × Serves sample w' whole
    × (w'.tables ≡ whole_world.tables)
follow_sqlite-AtEnd_example =
    follow_sqlite-AtEnd sample whole whole-InPlace whole-Roomy whole-Fits 2 whole_world
      whole_world-Serves whole_world-Totalled (omega arith)
