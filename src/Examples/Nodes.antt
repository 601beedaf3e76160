-- ===== src/Examples/Nodes.antt =====
-- A full node with three receivers in shard 7, which gives as many as it is asked for, in as many
-- replies as that takes; the indexer that follows it, and a client that pulls afterwards.
use manta_indexer.Prelude.{
  ℕ, ◌+◌, ◌-◌, ◌≤◌, ◌≡◌, false, some, List, [], ◌∷◌, ◌++◌, length, take, drop, filter, get_or,
  replicate, ltb, ◌==◌, if◌then◌else◌,
}
use manta_indexer.Types.{Receiver, PullResponse}
use manta_indexer.Ledger.{Ledger}
use manta_indexer.Sync.{Node}
use manta_indexer.Sync.Entries.{belongs}
use manta_indexer.Sync.Follows.{IsPrefix}
use manta_indexer.Sync.Job.{Job}
use manta_indexer.Examples.Sample.{sample}

abbrev three : List (Receiver sample)
three = (7, 1) ∷ (7, 2) ∷ (7, 3) ∷ []

abbrev seventh : ℕ → List (Receiver sample)
seventh s = if s == 7 then three else []

abbrev pages : Ledger sample
pages = record { shard = seventh; senders = [] }

abbrev page : ℕ → ℕ → PullResponse sample
page seen receivers = record {
  should_continue = ltb (seen + receivers) 3;
  receivers = take receivers (drop seen three);
  senders = [];
  senders_receivers_total = replicate 16 0;
}

-- What follows the checkpoint, up to the amount.
abbrev paging_node : Node sample
paging_node n c senders receivers = some (page (get_or c.receiver_index 7 0) receivers)

module _ (seen receivers : ℕ) where
  abbrev sent : List (Receiver sample)
  sent = take receivers (drop seen three)

-- What the reply leaves of a shard.
module _ (l : Ledger sample) (part : IsPrefix sample l pages) (seen receivers : ℕ)
    (marked : seen ≡ length (l.shard 7)) where
  abbrev Leaves : ℕ → Type 0
  Leaves s =
      (more : List (Receiver sample)) × (seventh s
        ≡ (l.shard s ++ filter (belongs sample s) (sent seen receivers)) ++ more)
      × (length more ≤ 3 - (seen + receivers))

abbrev fresh : Job
fresh = record { synced_times = 0; sync_error_count = 0; init_syncing_finished = false }
