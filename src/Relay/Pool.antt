-- ===== src/Relay/Pool.antt =====
-- src/relayer/sub_client_pool.rs: one client of the full node for each connection of a DApp, and the
-- channels that pass subscription data on.
use Prim.Native.String.{String}
use manta_indexer.Prelude.{
  ℕ, ◌≡◌, ◌≢◌, arith, Option, none, some, List, [], ◌∷◌, ◌==◌, if◌then◌else◌,
}
use manta_indexer.Words.{add64, sub64}

-- What the worker thread makes of a job: the queue is full (`try_send` fails), the job fails, or it
-- gives a value.
pub data JobOutcome {ℓ} (A : Type ℓ) : Type ℓ where
  queue_full failed : JobOutcome A
  done : A → JobOutcome A

-- `clients` maps a connection id to its client; the gauge counts the running channels.
pub record MtoMSubClientPool (Client : Type 0) : Type 0 where
  pub backend_uri : String
  pub clients : List (ℕ × Client)
  pub relaying_sub_channel_num : ℕ

abbrev pub find : {A : Type 0} → ℕ → List (ℕ × A) → Option A
find k [] = none
find k ((j, a) ∷ entries) = if j == k then some a else find k entries

module _ {Client : Type 0} where
  -- `build` is what a connection attempt to `backend_uri` gives, if one is made.
  unfoldable pub get_client :
      (String → JobOutcome Client)
      → ℕ
      → MtoMSubClientPool Client
      → Option Client × MtoMSubClientPool Client
  get_client build conn_id pool = elim (find conn_id pool.clients) [
    | some client ↦ (some client, pool)
    | none ↦ (elim (build pool.backend_uri) [
      | queue_full ↦ (none, pool)
      | failed ↦ (none, pool)
      | done client ↦ (some client, record pool { clients = (conn_id, client) ∷ pool.clients })
    ])
  ]

  -- `sub_keys` is `none` where the sink was not accepted; `open` asks the client to subscribe. The
  -- result says whether a task that relays the channel was spawned.
  unfoldable pub subscribe :
      {Channel : Type 0}
      → (String → JobOutcome Client)
      → (Client → JobOutcome Channel)
      → Option ℕ
      → MtoMSubClientPool Client
      → Option Channel × MtoMSubClientPool Client
  subscribe build open_channel none pool = (none, pool)
  subscribe build open_channel (some conn_id) pool =
      let (found, pool') = get_client build conn_id pool in
      elim found [
        | none ↦ (none, pool')
        | some client ↦ (elim (open_channel client) [
          | queue_full ↦ (none, pool')
          | failed ↦ (none, pool')
          | done channel ↦ (some channel, pool')
        ])
      ]

  -- The spawned task: the gauge around the life of a channel.
  unfoldable pub start_channel : MtoMSubClientPool Client → MtoMSubClientPool Client
  start_channel pool = record pool {
    relaying_sub_channel_num = add64 pool.relaying_sub_channel_num 1;
  }

  unfoldable pub end_channel : MtoMSubClientPool Client → MtoMSubClientPool Client
  end_channel pool = record pool {
    relaying_sub_channel_num = sub64 pool.relaying_sub_channel_num 1;
  }

  unfoldable pub new : String → MtoMSubClientPool Client
  new backend_uri = record { backend_uri = backend_uri; clients = []; relaying_sub_channel_num = 0 }

  -- After a client was given to a connection, every later request of the connection gets the same
  -- client, whatever a new attempt to connect would give, and the pool stays as it is.
  pub get_client-again :
      (build later : String → JobOutcome Client) (conn_id : ℕ) (client : Client)
      → (pool : MtoMSubClientPool Client) → (get_client build conn_id pool).0 ≡ some client
      → get_client later conn_id (get_client build conn_id pool).1
        ≡ (some client, (get_client build conn_id pool).1)
  unfolding get_client
  get_client-again build later conn_id client pool given = ground (arith, given)

  -- A subscription, whether it succeeds or not, leaves the clients of all other connections alone.
  pub subscribe-others :
      {Channel : Type 0} (build : String → JobOutcome Client)
      (open_channel : Client → JobOutcome Channel)
      → (conn_id other : ℕ) (pool : MtoMSubClientPool Client) → other ≢ conn_id
      → find other (subscribe build open_channel (some conn_id) pool).1.clients
        ≡ find other pool.clients
  unfolding subscribe get_client
  subscribe-others build open_channel conn_id other pool ne = ground arith
