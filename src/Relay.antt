-- ===== src/Relay.antt =====
-- src/relayer/relay_server.rs: the methods of the full node that the indexer offers, and what each
-- sends on. A parameter is a JSON value; the type of a result is left to the node.
pub mod Names
pub mod Pool
pub mod Tasks
use Prim.Native.String.{String}
use manta_indexer.Prelude.{Option, none, some, List, [], ◌∷◌}

-- A call that a client makes on `MantaRelayApi`, with its parameters.
pub data RelayCall {ℓ} (Json : Type ℓ) : Type ℓ where
  call : (name bytes hash : Json) → RelayCall Json
  storage_pairs : (prefix hash : Json) → RelayCall Json
  storage_keys_paged : (prefix count start_key hash : Json) → RelayCall Json
  storage storage_hash storage_size : (key hash : Json) → RelayCall Json
  metadata runtime_version : (hash : Json) → RelayCall Json
  query_storage : (keys block hash : Json) → RelayCall Json
  query_storage_at : (keys at : Json) → RelayCall Json
  trace_block : (block targets storage_keys methods : Json) → RelayCall Json
  system_name system_version system_chain system_properties system_health : RelayCall Json
  nonce : (account : Json) → RelayCall Json
  block header block_hash : (hash : Json) → RelayCall Json
  finalized_head : RelayCall Json
  submit_extrinsic : (extrinsic : Json) → RelayCall Json
  pending_extrinsics : RelayCall Json

-- A subscription that a client asks for.
pub data SubscribeCall {ℓ} (Json : Type ℓ) : Type ℓ where
  subscribe_storage : (keys : Json) → SubscribeCall Json
  subscribe_runtime_version subscribe_all_heads subscribe_new_heads : SubscribeCall Json
  subscribe_finalized_heads : SubscribeCall Json
  watch_extrinsic : (bytes : Json) → SubscribeCall Json

-- What the implementation passes to `sub_clients.subscribe`.
pub record Subscribe {ℓ} (Json : Type ℓ) : Type ℓ where
  pub sub_method : String
  pub params : List Json
  pub unsub_method : String

-- A `#[method]` or `#[subscription]` attribute: its name, aliases, and those of unsubscribing.
pub record Declared : Type 0 where
  pub name : String
  pub aliases : List String
  pub unsubscribe : List String

abbrev pub method : String → List String → Declared
method name aliases = record { name = name; aliases = aliases; unsubscribe = [] }

module _ {ℓ} {Json : Type ℓ} where
  -- The request that the implementation sends: `dmc.request(name, params)`.
  unfoldable pub request : RelayCall Json → String × List Json
  request (call name bytes hash) = ("state_call", name ∷ bytes ∷ hash ∷ [])
  request (storage_pairs prefix hash) = ("state_getPairs", prefix ∷ hash ∷ [])
  request (storage_keys_paged prefix count start_key hash) =
      ("state_getKeysPaged", prefix ∷ count ∷ start_key ∷ hash ∷ [])
  request (storage key hash) = ("state_getStorage", key ∷ hash ∷ [])
  request (storage_hash key hash) = ("state_getStorageHash", key ∷ hash ∷ [])
  request (storage_size key hash) = ("state_getStorageSize", key ∷ hash ∷ [])
  request (metadata hash) = ("state_getMetadata", hash ∷ [])
  request (runtime_version hash) = ("state_getRuntimeVersion", hash ∷ [])
  request (query_storage keys at hash) = ("state_queryStorage", keys ∷ at ∷ hash ∷ [])
  request (query_storage_at keys at) = ("state_queryStorageAt", keys ∷ at ∷ [])
  request (trace_block at targets storage_keys methods) =
      ("state_traceBlock", at ∷ targets ∷ storage_keys ∷ methods ∷ [])
  request system_name = ("system_name", [])
  request system_version = ("system_version", [])
  request system_chain = ("system_chain", [])
  request system_properties = ("system_properties", [])
  request system_health = ("system_health", [])
  request (nonce account) = ("system_accountNextIndex", account ∷ [])
  request (block hash) = ("chain_getBlock", hash ∷ [])
  request (header hash) = ("chain_getHeader", hash ∷ [])
  request (block_hash hash) = ("chain_getBlockHash", hash ∷ [])
  request finalized_head = ("chain_getFinalizedHead", [])
  request (submit_extrinsic extrinsic) = ("author_submitExtrinsic", extrinsic ∷ [])
  request pending_extrinsics = ("author_pendingExtrinsics", [])

  unfoldable pub subscribe : SubscribeCall Json → Subscribe Json
  subscribe (subscribe_storage keys) = record {
    sub_method = "state_subscribeStorage";
    params = keys ∷ [];
    unsub_method = "state_unsubscribeStorage";
  }
  subscribe subscribe_runtime_version = record {
    sub_method = "state_subscribeRuntimeVersion";
    params = [];
    unsub_method = "state_unsubscribeRuntimeVersion";
  }
  subscribe subscribe_all_heads = record {
    sub_method = "chain_subscribeAllHeads";
    params = [];
    unsub_method = "chain_unsubscribeAllHeads";
  }
  subscribe subscribe_new_heads = record {
    sub_method = "chain_subscribeNewHeads";
    params = [];
    unsub_method = "chain_unsubscribeNewHeads";
  }
  subscribe subscribe_finalized_heads = record {
    sub_method = "chain_subscribeFinalizedHeads";
    params = [];
    unsub_method = "chain_unsubscribeFinalizedHeads";
  }
  subscribe (watch_extrinsic bytes) = record {
    sub_method = "author_submitAndWatchExtrinsic";
    params = bytes ∷ [];
    unsub_method = "author_unwatchExtrinsic";
  }

  -- The attributes of the trait `MantaRelayApi`.
  unfoldable pub declared_method : RelayCall Json → Declared
  declared_method (call name bytes hash) = method "state_call" ("state_callAt" ∷ [])
  declared_method (storage_pairs prefix hash) = method "state_getPairs" []
  declared_method (storage_keys_paged prefix count start_key hash) =
      method "state_getKeysPaged" ("state_getKeysPagedAt" ∷ [])
  declared_method (storage key hash) = method "state_getStorage" ("state_getStorageAt" ∷ [])
  declared_method (storage_hash key hash) =
      method "state_getStorageHash" ("state_getStorageHashAt" ∷ [])
  declared_method (storage_size key hash) =
      method "state_getStorageSize" ("state_getStorageSizeAt" ∷ [])
  declared_method (metadata hash) = method "state_getMetadata" []
  declared_method (runtime_version hash) =
      method "state_getRuntimeVersion" ("chain_getRuntimeVersion" ∷ [])
  declared_method (query_storage keys at hash) = method "state_queryStorage" []
  declared_method (query_storage_at keys at) = method "state_queryStorageAt" []
  declared_method (trace_block at targets storage_keys methods) = method "state_traceBlock" []
  declared_method system_name = method "system_name" []
  declared_method system_version = method "system_version" []
  declared_method system_chain = method "system_chain" []
  declared_method system_properties = method "system_properties" []
  declared_method system_health = method "system_health" []
  declared_method (nonce account) = method "system_accountNextIndex" ("account_nextIndex" ∷ [])
  declared_method (block hash) = method "chain_getBlock" []
  declared_method (header hash) = method "chain_getHeader" []
  declared_method (block_hash hash) = method "chain_getBlockHash" ("chain_getHead" ∷ [])
  declared_method finalized_head = method "chain_getFinalizedHead" ("chain_getFinalisedHead" ∷ [])
  declared_method (submit_extrinsic extrinsic) = method "author_submitExtrinsic" []
  declared_method pending_extrinsics = method "author_pendingExtrinsics" []

  unfoldable pub declared_subscription : SubscribeCall Json → Declared
  declared_subscription (subscribe_storage keys) = record {
    name = "state_subscribeStorage";
    aliases = [];
    unsubscribe = "state_unsubscribeStorage" ∷ [];
  }
  declared_subscription subscribe_runtime_version = record {
    name = "state_subscribeRuntimeVersion";
    aliases = "chain_subscribeRuntimeVersion" ∷ [];
    unsubscribe = "state_unsubscribeRuntimeVersion" ∷ "chain_unsubscribeRuntimeVersion" ∷ [];
  }
  declared_subscription subscribe_all_heads = record {
    name = "chain_subscribeAllHeads";
    aliases = [];
    unsubscribe = "chain_unsubscribeAllHeads" ∷ [];
  }
  declared_subscription subscribe_new_heads = record {
    name = "chain_subscribeNewHeads";
    aliases = "subscribe_newHead" ∷ "chain_subscribeNewHead" ∷ [];
    unsubscribe =
        "chain_unsubscribeNewHeads" ∷ "unsubscribe_newHead" ∷ "chain_unsubscribeNewHead" ∷ [];
  }
  declared_subscription subscribe_finalized_heads = record {
    name = "chain_subscribeFinalizedHeads";
    aliases = "chain_subscribeFinalisedHeads" ∷ [];
    unsubscribe = "chain_unsubscribeFinalizedHeads" ∷ "chain_unsubscribeFinalisedHeads" ∷ [];
  }
  declared_subscription (watch_extrinsic bytes) = record {
    name = "author_submitAndWatchExtrinsic";
    aliases = [];
    unsubscribe = "author_unwatchExtrinsic" ∷ [];
  }
