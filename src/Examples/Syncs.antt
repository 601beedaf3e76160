-- ===== src/Examples/Syncs.antt =====
-- The synchronization at concrete inputs: a full node with one receiver, in shard 7, and an indexer
-- that has nothing yet.
use manta_indexer.Prelude.{
  ℕ, zero, suc, ◌^◌, ◌≤◌, ◌≡◌, refl, All, length-replicate, true, false, some, none, List, [], ◌∷◌,
  arith, get_or, replicate, ◌==◌, if◌then◌else◌,
}
use manta_indexer.Types.{Checkpoint, Receiver, PullResponse, default_checkpoint}
use manta_indexer.Store.{World, ok}
use manta_indexer.Ledger.{Ledger, Fits, Serves}
use manta_indexer.Ledger.Growth.{Marks}
use manta_indexer.Db.{get_latest_check_point}
use manta_indexer.Sync.{Node, sync_round}
use manta_indexer.Sync.Rounds.{grown, sync_round-extends}
use manta_indexer.Sync.Start.{get_latest_check_point-Marks}
use manta_indexer.Examples.Sample.{sample, ledger, world, world-Serves}

abbrev pub only_seventh : ℕ → List (Receiver sample)
only_seventh s = if s == 7 then (7, 8) ∷ [] else []

abbrev pub whole : Ledger sample
whole = record { shard = only_seventh; senders = [] }

abbrev pub nothing : Ledger sample
nothing = record { shard = λ s. []; senders = [] }

abbrev pub empty_world : World sample
empty_world = record {
  tables = record { shards = []; nullifier = []; senders_receivers_total = none };
  cache = [];
  faults = [];
}

abbrev left_after : ℕ → List (Receiver sample)
left_after seen = if seen == 0 then (7, 8) ∷ [] else []

abbrev pub follow_up : ℕ → PullResponse sample
follow_up seen = record {
  should_continue = false;
  receivers = left_after seen;
  senders = [];
  senders_receivers_total = replicate 16 0;
}

-- The node replies with what follows the checkpoint.
abbrev pub full_node : Node sample
full_node n c max_senders max_receivers = some (follow_up (get_or c.receiver_index 7 0))

pub whole-Fits : Fits sample whole
whole-Fits = record { shards_fit = λ s. ground arith; senders_fit = omega arith }

pub empty_world-Serves : Serves sample empty_world nothing
empty_world-Serves = record {
  calm = refl;
  stores = record { shards = λ s. refl; nullifiers = refl };
  holds = λ k v h. absurd (cc h);
}

get_or-replicate : (n k : ℕ) → get_or {A = ℕ} (replicate n 0) k 0 ≡ 0
get_or-replicate zero k = refl
get_or-replicate (suc n) zero = refl
get_or-replicate (suc n) (suc k) = get_or-replicate n k

pub nothing-Marks : Marks sample default_checkpoint nothing
nothing-Marks = record {
  width = length-replicate {A = ℕ} 256 0;
  shards = λ s inside. get_or-replicate 256 s;
  senders = refl;
}

pub reply-Fits : Fits sample (grown sample nothing (follow_up 0))
reply-Fits = record { shards_fit = λ s. ground arith; senders_fit = omega arith }

-- A client that has nothing of the first eight shards, the last of which it asks for.
abbrev pub asked : Checkpoint
asked = record { receiver_index = replicate 8 0; sender_index = 0 }

pub small : All (λ i. i ≤ 2 ^ 47) asked.receiver_index
small = (
  omega arith,
  (
    omega arith,
    (omega arith, (omega arith, (omega arith, (omega arith, (omega arith, (omega arith, tt)))))),
  ),
)

get_latest_check_point-Marks_example :
    (c : Checkpoint) × (get_latest_check_point sample world ≡ (ok c, world)) × Marks sample c ledger
get_latest_check_point-Marks_example =
    get_latest_check_point-Marks sample ledger world world-Serves (omega arith)

sync_round-extends_example :
    (c' : Checkpoint) × (w' : World sample) × (sync_round sample full_node 0
        (1, 1)
        true
        default_checkpoint
        empty_world
      ≡ (ok (c', false), w'))
    × Marks sample c' (grown sample nothing (follow_up 0))
    × Serves sample w' (grown sample nothing (follow_up 0))
    × (w'.tables.senders_receivers_total ≡ some (replicate 16 0))
sync_round-extends_example =
    sync_round-extends sample full_node 0 (1, 1) true default_checkpoint nothing (follow_up 0)
      empty_world empty_world-Serves nothing-Marks reply-Fits refl refl
