-- ===== src/Examples/Relays.antt =====
-- The tasks that relay channels at concrete inputs: one subscription, whose task has started.
use Prim.Native.String.{String}
use manta_indexer.Prelude.{ℕ, ◌+◌, ◌≡◌, refl, some}
use manta_indexer.Relay.Pool.{JobOutcome, done, get_client, subscribe, new, start_channel}
use manta_indexer.Relay.Tasks.{
  Relaying, spawn, subscribed, started, Reach, here, next, at_first, Counted, Reach-Counted,
}

abbrev build : String → JobOutcome ℕ
build uri = done 1

abbrev open_channel : ℕ → JobOutcome ℕ
open_channel client = done 2

abbrev no_task : Relaying ℕ ℕ
no_task = at_first "ws://127.0.0.1:9800"

abbrev one_spawned : Relaying ℕ ℕ
one_spawned = spawn (subscribe build open_channel (some 5) no_task.pool) no_task

abbrev one_running : Relaying ℕ ℕ
one_running = record one_spawned {
  pool = start_channel one_spawned.pool;
  spawned = 0;
  running = one_spawned.running + 1;
}

is_spawned : one_spawned.spawned ≡ 0 + 1
unfolding subscribe get_client new
is_spawned = refl

one_running_reached : Reach no_task one_running
one_running_reached =
    next (next here (subscribed no_task build open_channel (some 5)))
      (started one_spawned 0 is_spawned)

Reach-Counted_example : Counted one_running
Reach-Counted_example = Reach-Counted "ws://127.0.0.1:9800" one_running one_running_reached
