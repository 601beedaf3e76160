-- ===== src/Examples/Responses.antt =====
-- The theorems on whole responses and on the loop that asks for them, on the sample ledger.
use mathlib.Core.List.{Permᴰ}
use manta_indexer.Prelude.{
  ℕ, ◌+◌, ◌≤◌, ◌≡◌, ◌≢◌, ◌⊎◌, refl, ◌||◌, true, false, some, [], ◌∷◌, length, take, drop, ltb, min,
  filter, replicate, arith,
}
use manta_indexer.External.{Bytes}
use manta_indexer.Types.{Checkpoint, ReceiverChunk, SenderChunk, PullResponse}
use manta_indexer.Store.{World, ok, err, indexer, bad_utxo, ◌>>=◌}
use manta_indexer.Ledger.{Serves}
use manta_indexer.Pull
use manta_indexer.Pull.Plan.{takes, cursors, cut_short}
use manta_indexer.Pull.Complete.{rests, ends, pull_receivers_complete}
use manta_indexer.Pull.Answers.{pull_ledger_diff-plan}
use manta_indexer.Sync.{push_entry, Node, Shards, reconstruct_shards_from_pull_response}
use manta_indexer.Sync.Checkpoints.{DistinctKeys}
use manta_indexer.Sync.Entries.{entry, belongs, stray, reconstruct_shards-entries}
use manta_indexer.Sync.Job.{Job, start_sync_ledger_job, Switched, start_sync_ledger_job-Switched}
use manta_indexer.Server
use manta_indexer.Server.Limits.{pull_ledger_diff-limits}
use manta_indexer.Examples.Sample.{sample, ledger, world, ledger-Fits, world-Serves}

abbrev zero_total : Bytes
zero_total = replicate 16 0

abbrev checkpoint : Checkpoint
checkpoint = record { receiver_index = 1 ∷ 0 ∷ []; sender_index = 0 }

pull_ledger_diff-plan_example :
    (receivers : ReceiverChunk sample) × (senders : SenderChunk sample) × (w' : World sample)
    × (Pull.pull_ledger_diff sample checkpoint 2 3 world ≡ (
      ok (
        record {
          should_continue =
              cut_short sample ledger 2 0 checkpoint.receiver_index
              || ltb (0 + 3) (length ledger.senders);
          receivers = receivers;
          senders = senders;
          senders_receivers_total = zero_total;
        },
        record {
          receiver_index = cursors sample ledger 2 0 checkpoint.receiver_index;
          sender_index = 0 + 3;
        },
      ),
      w',
    ))
    × Permᴰ receivers (takes sample ledger 2 0 checkpoint.receiver_index)
    × Permᴰ senders (take 3 (drop 0 ledger.senders))
    × (w'.tables ≡ world.tables)
    × Serves sample w' ledger
pull_ledger_diff-plan_example =
    pull_ledger_diff-plan sample ledger checkpoint 2 3 zero_total world ledger-Fits world-Serves
      refl refl (omega arith) (omega arith, (omega arith, tt)) (omega arith) (omega arith)
      (omega arith)

pull_ledger_diff-limits_example :
    (r : PullResponse sample) × (w' : World sample) × (Server.pull_ledger_diff sample checkpoint
        5000 1 world
      ≡ (ok r, w'))
    × (length r.receivers ≤ min 5000 4096)
    × (length r.senders ≤ min 1 4096)
    × Serves sample w' ledger
pull_ledger_diff-limits_example =
    pull_ledger_diff-limits sample ledger checkpoint 5000 1 zero_total world ledger-Fits
      world-Serves refl refl (omega arith) (omega arith, (omega arith, tt)) (omega arith)

abbrev last_reply : PullResponse sample
last_reply = record {
  should_continue = false;
  receivers = (7, 8) ∷ (9, 1) ∷ (7, 2) ∷ [];
  senders = [];
  senders_receivers_total = zero_total;
}

reconstruct_shards-entries_example :
    ((shards : Shards sample) × (reconstruct_shards_from_pull_response sample last_reply world
        ≡ (ok shards, world))
      × ((s : ℕ) → entry s shards ≡ filter (belongs sample s) last_reply.receivers)
      × DistinctKeys shards)
    ⊎ (reconstruct_shards_from_pull_response sample last_reply world
        ≡ (err (indexer bad_utxo), world))
      × (filter (stray sample) last_reply.receivers ≢ [])
reconstruct_shards-entries_example = reconstruct_shards-entries sample last_reply world

abbrev last_shards : Shards sample
last_shards = (7, (7, 8) ∷ (7, 2) ∷ []) ∷ (9, (9, 1) ∷ []) ∷ []

last_reply_runs :
    reconstruct_shards_from_pull_response sample last_reply world ≡ (ok last_shards, world)
unfolding reconstruct_shards_from_pull_response push_entry ◌>>=◌
last_reply_runs = refl

abbrev node : Node sample
node n c max_senders max_receivers = some last_reply

pull_receivers_complete_example :
    (items : ReceiverChunk sample) × (w' : World sample) × (Pull.pull_receivers sample
        (1 ∷ 0 ∷ [])
        2
        world
      ≡ (ok (false, ends sample ledger 0 (1 ∷ 0 ∷ []), items), w'))
    × Permᴰ items (rests sample ledger 0 (1 ∷ 0 ∷ []))
pull_receivers_complete_example =
    pull_receivers_complete sample ledger (1 ∷ 0 ∷ []) 2 world ledger-Fits world-Serves
      (omega arith) (omega arith) (omega arith, (omega arith, tt)) (omega arith)

abbrev fresh : Job
fresh = record { synced_times = 0; sync_error_count = 0; init_syncing_finished = false }

start_sync_ledger_job-Switched_example :
    Switched sample
      (start_sync_ledger_job sample (λ k. node) 1 (1, 1) 0 (false ∷ true ∷ []) fresh world).0
start_sync_ledger_job-Switched_example =
    start_sync_ledger_job-Switched sample (λ k. node) 1 (1, 1) 0 (false ∷ true ∷ []) fresh world
      (omega arith) ((λ q. absurd (cc q)), (λ lt. absurd (omega (arith, lt))))
