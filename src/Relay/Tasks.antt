-- ===== src/Relay/Tasks.antt =====
-- src/relayer/sub_client_pool.rs: the tasks that `subscribe` spawns, each of which relays one channel
-- and counts itself in the gauge, in any interleaving with each other and with later subscriptions.
use Prim.Native.String.{String}
use manta_indexer.Prelude.{
  ℕ, ◌+◌, ◌%◌, ◌^◌, ◌≡◌, refl, ◌∙◌, arith, Option, none, some, List, [], ◌∷◌, length,
}
use manta_indexer.Relay.Pool.{
  MtoMSubClientPool, JobOutcome, get_client, subscribe, start_channel, end_channel, new,
}

-- `SubscriptionClosed`: how `pipe_from_stream` ended.
pub data SubscriptionClosed : Type 0 where
  success remote_peer_aborted failed : SubscriptionClosed

-- What the sink is closed with, where it is.
unfoldable pub close_with : SubscriptionClosed → Option SubscriptionClosed
close_with success = some success
close_with remote_peer_aborted = none
close_with failed = some failed

-- The pool, the channels that a subscription was answered with, the tasks that are spawned and have not
-- run yet, those between the two changes of the gauge, and how the others ended, with what their sinks
-- were closed with.
pub record Relaying (Client Channel : Type 0) : Type 0 where
  pub pool : MtoMSubClientPool Client
  pub answered : List Channel
  pub spawned : ℕ
  pub running : ℕ
  pub ended : List SubscriptionClosed
  pub closings : List (Option SubscriptionClosed)

-- A subscription that gives a channel spawns a task for it; one that gives none spawns nothing.
abbrev pub spawn :
    {Client Channel : Type 0}
    → Option Channel × MtoMSubClientPool Client
    → Relaying Client Channel
    → Relaying Client Channel
spawn (none, pool) s = record s { pool = pool }
spawn (some channel, pool) s = record s {
  pool = pool;
  answered = channel ∷ s.answered;
  spawned = s.spawned + 1;
}

module _ {Client Channel : Type 0} where
  pub data Step : Relaying Client Channel → Relaying Client Channel → Type 0 where
    subscribed :
        (s : Relaying Client Channel) (build : String → JobOutcome Client)
        (open_channel : Client → JobOutcome Channel) (sub_keys : Option ℕ)
        → Step s (spawn (subscribe build open_channel sub_keys s.pool) s)
    started :
        (s : Relaying Client Channel) (n : ℕ)
        → s.spawned ≡ n + 1
        → Step s (record s { pool = start_channel s.pool; spawned = n; running = s.running + 1 })
    finished :
        (s : Relaying Client Channel) (n : ℕ) (how : SubscriptionClosed)
        → s.running ≡ n + 1
        → Step s (record s {
          pool = end_channel s.pool;
          running = n;
          ended = how ∷ s.ended;
          closings = close_with how ∷ s.closings;
        })

  pub data Reach (s : Relaying Client Channel) : Relaying Client Channel → Type 0 where
    here : Reach s s
    next : {t u : Relaying Client Channel} → Reach s t → Step t u → Reach s u

  -- A pool that is new, and no task.
  abbrev pub at_first : String → Relaying Client Channel
  at_first backend_uri = record {
    pool = new backend_uri;
    answered = [];
    spawned = 0;
    running = 0;
    ended = [];
    closings = [];
  }

  subscribe-relaying :
      (build : String → JobOutcome Client) (open_channel : Client → JobOutcome Channel)
      (sub_keys : Option ℕ) (pool : MtoMSubClientPool Client)
      → (subscribe build open_channel sub_keys pool).1.relaying_sub_channel_num
        ≡ pool.relaying_sub_channel_num
  unfolding subscribe get_client
  subscribe-relaying build open_channel none pool = refl
  subscribe-relaying build open_channel (some conn_id) pool = ground arith

  -- The gauge counts the running tasks, and every answered channel has its task.
  pub record Counted (s : Relaying Client Channel) : Type 0 where
    pub gauge : s.pool.relaying_sub_channel_num ≡ s.running % 2 ^ 64
    pub tasks : length s.answered ≡ s.spawned + s.running + length s.ended

  spawn-Counted :
      (r : Option Channel × MtoMSubClientPool Client) (s : Relaying Client Channel)
      → r.1.relaying_sub_channel_num ≡ s.pool.relaying_sub_channel_num
      → Counted s
      → Counted (spawn r s)
  spawn-Counted (none, pool) s same c = record { gauge = same ∙ c.gauge; tasks = c.tasks }
  spawn-Counted (some channel, pool) s same c = record {
    gauge = same ∙ c.gauge;
    tasks = omega (arith, c.tasks);
  }

  Step-Counted : {s t : Relaying Client Channel} → Step s t → Counted s → Counted t
  unfolding start_channel end_channel
  Step-Counted (subscribed s build open_channel sub_keys) c =
      spawn-Counted (subscribe build open_channel sub_keys s.pool) s
        (subscribe-relaying build open_channel sub_keys s.pool) c
  Step-Counted (started s n q) c = record {
    gauge = omega (arith, c.gauge);
    tasks = omega (arith, c.tasks, q);
  }
  Step-Counted (finished s n how q) c = record {
    gauge = omega (arith, c.gauge, q);
    tasks = omega (arith, c.tasks, q);
  }

  -- From a new pool, after any subscriptions, started tasks and finished tasks in any interleaving:
  -- the gauge is the number of running tasks, as a 64-bit number, and every channel that a subscription
  -- was answered with has one task, spawned, running or ended.
  pub Reach-Counted :
      (backend_uri : String) (s : Relaying Client Channel)
      → Reach (at_first backend_uri) s
      → Counted s
  unfolding new
  Reach-Counted backend_uri s here = record { gauge = omega arith; tasks = omega arith }
  Reach-Counted backend_uri s (next {t = t} steps step) =
      Step-Counted step (Reach-Counted backend_uri t steps)
