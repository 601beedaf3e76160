-- ===== src/Examples/Traffic.antt =====
-- A pull after some traffic: a node with one receiver, in shard 7, which it gives in one round.
use mathlib.Core.List.{Permᴰ}
use manta_indexer.Prelude.{
  ◌+◌, ◌≡◌, refl, ◌||◌, true, none, some, [], arith, length, take, drop, replicate, ltb,
}
use manta_indexer.External.{Bytes}
use manta_indexer.Types.{ReceiverChunk, SenderChunk, default_checkpoint}
use manta_indexer.Store.{World, ok}
use manta_indexer.Pull.{pull_ledger_diff}
use manta_indexer.Pull.Plan.{takes, cursors, cut_short}
use manta_indexer.Sync.{Node, sync_round}
use manta_indexer.Sync.Rounds.{grown}
use manta_indexer.Sync.Follows.{IsPrefix}
use manta_indexer.Db.{get_latest_check_point}
use manta_indexer.Traffic.{
  Bounded, State, after_round, after_count, pulled, synced, unanswered, begun, Reach, start, step,
}
use manta_indexer.Traffic.Answers.{Sound, Reach-pull_ledger_diff}
use manta_indexer.Examples.Sample.{sample}
use manta_indexer.Examples.Syncs.{
  nothing, full_node, follow_up, nothing-Marks, reply-Fits, asked, small,
}

-- Nothing is stored but a total.
abbrev quiet : State sample
quiet = record {
  ledger = nothing;
  checkpoint = default_checkpoint;
  world = record {
    tables = record {
      shards = [];
      nullifier = [];
      senders_receivers_total = some (replicate 16 0);
    };
    cache = [];
    faults = [];
  };
}

quiet-Sound : Sound sample quiet
quiet-Sound = record {
  fits = record { shards_fit = λ s. omega arith; senders_fit = omega arith };
  serves = record {
    calm = refl;
    stores = record { shards = λ s. refl; nullifiers = refl };
    holds = λ k v h. absurd (cc h);
  };
  marks = nothing-Marks;
  totalled = record { total = replicate 16 0; stored = refl; size = refl };
}

asked-Bounded : Bounded asked 2 1
asked-Bounded = record {
  shards = omega arith;
  indices = small;
  sender = omega arith;
  receivers = omega arith;
  senders = omega arith;
}

abbrev no_node : Node sample
no_node n c most_senders most_receivers = none

-- A pull, then the round, then one without a reply, then a new beginning.
abbrev after_pull : State sample
after_pull = record quiet { world = (pull_ledger_diff sample asked 2 1 quiet.world).1 }

abbrev after_reply : State sample
after_reply =
    after_round sample after_pull (grown sample nothing (follow_up 0))
      (sync_round sample full_node 0 (1, 1) true default_checkpoint after_pull.world)

abbrev after_silence : State sample
after_silence =
    after_round sample after_reply after_reply.ledger
      (sync_round sample no_node 1 (1, 1) true after_reply.checkpoint after_reply.world)

abbrev after_all : State sample
after_all = after_count sample after_silence (get_latest_check_point sample after_silence.world)

traffic : Reach sample quiet after_all
traffic =
    step quiet after_silence after_all
      (step quiet after_reply after_silence
        (step quiet after_pull after_reply
          (step quiet quiet after_pull (start quiet) (pulled quiet asked 2 1 asked-Bounded))
          (synced after_pull full_node 0 (1, 1) true (follow_up 0) refl refl reply-Fits refl))
        (unanswered after_reply no_node 1 (1, 1) true refl))
      (begun after_silence)

Reach-pull_ledger_diff_example :
    IsPrefix sample nothing after_all.ledger
    × (receivers : ReceiverChunk sample) × (senders : SenderChunk sample) × (total : Bytes)
    × (w' : World sample) × (pull_ledger_diff sample asked 2 1 after_all.world ≡ (
      ok (
        record {
          should_continue =
              cut_short sample after_all.ledger 2 0 asked.receiver_index
              || ltb (asked.sender_index + 1) (length after_all.ledger.senders);
          receivers = receivers;
          senders = senders;
          senders_receivers_total = total;
        },
        record {
          receiver_index = cursors sample after_all.ledger 2 0 asked.receiver_index;
          sender_index = asked.sender_index + 1;
        },
      ),
      w',
    ))
    × Permᴰ receivers (takes sample after_all.ledger 2 0 asked.receiver_index)
    × Permᴰ senders (take 1 (drop asked.sender_index after_all.ledger.senders))
Reach-pull_ledger_diff_example =
    Reach-pull_ledger_diff sample quiet after_all asked 2 1 quiet-Sound traffic asked-Bounded
