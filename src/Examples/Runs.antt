-- ===== src/Examples/Runs.antt =====
-- The theorems of the development at concrete inputs, most of them on the sample ledger.
use mathlib.Core.List.{Permᴰ}
use manta_indexer.Prelude.{
  ℕ, ◌+◌, ◌%◌, ◌^◌, ◌<◌, ◌≡◌, ◌≢◌, ◌↔◌, refl, true, false, List, [], ◌∷◌, ◌++◌, some, length, take,
  drop, ltb, arith,
}
use manta_indexer.Types.{Receiver, ReceiverChunk, Sender, PullResponse, default_checkpoint}
use manta_indexer.Store.{World, ok, err, sqlx, database, statement, in_transaction, ◌>>=◌}
use manta_indexer.Ledger.{Serves}
use manta_indexer.Db.{
  insert_one_shard, get_len_of_nullifier, update_or_insert_total_senders_receivers,
}
use manta_indexer.Cache.Keys.{receiver_key, sender_key}
use manta_indexer.Cache.Keys.Layout.{receiver_key_iff, keys_disjoint}
use manta_indexer.Pull.{
  pull_receivers_for_shard, pull_receivers, pull_senders, calculate_next_checkpoint,
}
use manta_indexer.Pull.Plan.{takes, cursors, cut_short}
use manta_indexer.Pull.Slices.{pull_receivers_for_shard-slice, pull_senders-slice}
use manta_indexer.Pull.Receivers.{pull_receivers-plan, pull_receivers-stops}
use manta_indexer.Sync.{
  Node, synchronize_ledger, reconstruct_shards_from_pull_response, store_response, insert_shards,
  insert_shard, insert_nullifiers, sync_round, increasing_checkpoint, push_entry,
}
use manta_indexer.Sync.Atomic.{sync_round-Atomic}
use manta_indexer.Sync.Checkpoints.{calculate_next_checkpoint-increasing}
use manta_indexer.Server.{pull_ledger_diff, dense_pull_ledger_diff}
use manta_indexer.Server.Dense.{decoded, plain, dense-plain}
use manta_indexer.Relay.{
  request, subscribe, declared_method, declared_subscription, storage, watch_extrinsic,
}
use manta_indexer.Relay.Names.{first_or, relayed-declared}
use manta_indexer.Relay.Pool
use manta_indexer.Examples.Sample.{sample, ledger, world, ledger-Fits, world-Serves}

pull_receivers-plan_example :
    (items : ReceiverChunk sample) × (w' : World sample) × (pull_receivers sample
        (1 ∷ 0 ∷ [])
        2
        world
      ≡ (
        ok (
          cut_short sample ledger 2 0 (1 ∷ 0 ∷ []),
          cursors sample ledger 2 0 (1 ∷ 0 ∷ []),
          items,
        ),
        w',
      ))
    × Permᴰ items (takes sample ledger 2 0 (1 ∷ 0 ∷ []))
    × (w'.tables ≡ world.tables)
    × Serves sample w' ledger
pull_receivers-plan_example =
    pull_receivers-plan sample ledger (1 ∷ 0 ∷ []) 2 world ledger-Fits world-Serves (omega arith)
      (omega arith) (omega arith, (omega arith, tt))

pull_receivers-stops_example :
    (items : ReceiverChunk sample) × (w' : World sample) × (pull_receivers sample
        (0 ∷ 0 ∷ [])
        2
        world
      ≡ (ok (false, (0 + 2) ∷ 0 ∷ [], items), w'))
    × Permᴰ items (drop 0 (ledger.shard 0))
pull_receivers-stops_example =
    pull_receivers-stops sample ledger 0 (0 ∷ []) 2 world ledger-Fits world-Serves (omega arith)
      (omega arith) (omega arith, (omega arith, tt)) refl (omega arith)

pull_receivers_for_shard-slice_example :
    (items : List (Receiver sample)) × (w' : World sample) × (pull_receivers_for_shard sample 0 1 1
        [] world
      ≡ (ok ([] ++ items, ltb (1 + 1) (length (ledger.shard 0))), w'))
    × Permᴰ items (take 1 (drop 1 (ledger.shard 0)))
    × (w'.tables ≡ world.tables)
    × Serves sample w' ledger
pull_receivers_for_shard-slice_example =
    pull_receivers_for_shard-slice sample ledger 0 1 1 [] world ledger-Fits world-Serves
      (omega arith) (omega arith)

pull_senders-slice_example :
    (items : List (Sender sample)) × (w' : World sample) × (pull_senders sample 0 1 world
      ≡ (ok (ltb (0 + 1) (length ledger.senders), 0 + 1, items), w'))
    × Permᴰ items (take 1 (drop 0 ledger.senders))
    × (w'.tables ≡ world.tables)
    × Serves sample w' ledger
pull_senders-slice_example =
    pull_senders-slice sample ledger 0 1 world ledger-Fits world-Serves (omega arith)

abbrev reply : PullResponse sample
reply = record {
  should_continue = false;
  receivers = (7, 8) ∷ [];
  senders = [];
  senders_receivers_total = [];
}

abbrev node : Node sample
node n checkpoint max_senders max_receivers = some reply

-- The world in which the sixth statement, the commit, fails.
abbrev no_commit : World sample
no_commit = record world { faults = false ∷ false ∷ false ∷ false ∷ false ∷ true ∷ [] }

commit_fails :
    sync_round sample node 0 (1, 1) true default_checkpoint no_commit ≡ (err (sqlx database), world)
unfolding sync_round synchronize_ledger reconstruct_shards_from_pull_response store_response
    insert_shards insert_shard insert_nullifiers insert_one_shard get_len_of_nullifier
    update_or_insert_total_senders_receivers statement in_transaction ◌>>=◌ push_entry
commit_fails = refl

sync_round-Atomic_example : (world.tables ≡ no_commit.tables) × (world.cache ≡ no_commit.cache)
sync_round-Atomic_example =
    sync_round-Atomic sample node 0 (1, 1) true default_checkpoint no_commit world (sqlx database)
      commit_fails

abbrev two_shards : List (ℕ × List ℕ)
two_shards = (0, 1 ∷ 2 ∷ []) ∷ (3, 5 ∷ []) ∷ []

calculate_next_checkpoint-increasing_example :
    calculate_next_checkpoint two_shards default_checkpoint default_checkpoint 1
    ≡ increasing_checkpoint default_checkpoint 1 two_shards
calculate_next_checkpoint-increasing_example =
    calculate_next_checkpoint-increasing two_shards default_checkpoint 1
      (((λ q. omega arith), tt), (tt, tt))

dense-plain_example :
    decoded sample (dense_pull_ledger_diff sample default_checkpoint 2 1 world)
    ≡ plain sample (pull_ledger_diff sample default_checkpoint 2 1 world)
dense-plain_example = dense-plain sample default_checkpoint 2 1 world

receiver_key_iff_example :
    (receiver_key 1 0 ≡ receiver_key 1 (2 ^ 48))
    ↔ ((1 % 2 ^ 12 ≡ 1 % 2 ^ 12) × (0 % 2 ^ 48 ≡ 2 ^ 48 % 2 ^ 48))
receiver_key_iff_example = receiver_key_iff 1 1 0 (2 ^ 48)

keys_disjoint_example :
    (receiver_key 1 2 ≢ sender_key 2) × (receiver_key 1 2 < 2 ^ 61) × (sender_key 2 < 2 ^ 62)
keys_disjoint_example = keys_disjoint 1 2 2

abbrev key : ℕ
key = 1

abbrev hash : ℕ
hash = 2

abbrev bytes : ℕ
bytes = 3

relayed-declared_example :
    ((request (storage key hash)).0 ≡ (declared_method (storage key hash)).name)
    × ((subscribe (watch_extrinsic bytes)).sub_method
        ≡ (declared_subscription (watch_extrinsic bytes)).name)
    × ((subscribe (watch_extrinsic bytes)).unsub_method
        ≡ first_or "" (declared_subscription (watch_extrinsic bytes)).unsubscribe)
relayed-declared_example = relayed-declared (storage key hash) (watch_extrinsic bytes)

abbrev pool : Pool.MtoMSubClientPool ℕ
pool = record { backend_uri = "ws"; clients = (4, 9) ∷ []; relaying_sub_channel_num = 0 }

connects : (Pool.get_client (λ uri. Pool.done 7) 1 pool).0 ≡ some 7
unfolding Pool.get_client
connects = refl

get_client-again_example :
    Pool.get_client (λ uri. Pool.failed) 1 (Pool.get_client (λ uri. Pool.done 7) 1 pool).1
    ≡ (some 7, (Pool.get_client (λ uri. Pool.done 7) 1 pool).1)
get_client-again_example =
    Pool.get_client-again (λ uri. Pool.done 7) (λ uri. Pool.failed) 1 7 pool connects

subscribe-others_example :
    Pool.find 4
      (Pool.subscribe (λ uri. Pool.done 7) (λ client. Pool.done bytes) (some 1) pool).1.clients
    ≡ Pool.find 4 pool.clients
subscribe-others_example =
    Pool.subscribe-others (λ uri. Pool.done 7) (λ client. Pool.done bytes) 1 4 pool
      (λ q. omega arith)
