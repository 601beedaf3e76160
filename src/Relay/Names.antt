-- ===== src/Relay/Names.antt =====
-- The names under which src/relayer/relay_server.rs offers a method and sends it on.
use Prim.Native.String.{String}
use manta_indexer.Prelude.{◌≡◌, refl, List, [], ◌∷◌}
use manta_indexer.Relay.{
  RelayCall, SubscribeCall, request, subscribe, declared_method, declared_subscription, call,
  storage_pairs, storage_keys_paged, storage, storage_hash, storage_size, metadata, runtime_version,
  query_storage, query_storage_at, trace_block, system_name, system_version, system_chain,
  system_properties, system_health, nonce, block, header, block_hash, finalized_head,
  submit_extrinsic, pending_extrinsics, subscribe_storage, subscribe_runtime_version,
  subscribe_all_heads, subscribe_new_heads, subscribe_finalized_heads, watch_extrinsic,
}

-- The name that a request to the full node has.
abbrev pub sent_name : {Json : Type 0} → RelayCall Json → String
sent_name c = (request c).0

abbrev pub first_or : String → List String → String
first_or d [] = d
first_or d (s ∷ ss) = s

request-declared : {Json : Type 0} (c : RelayCall Json) → (request c).0 ≡ (declared_method c).name
unfolding request declared_method
request-declared (call name bytes hash) = refl
request-declared (storage_pairs prefix hash) = refl
request-declared (storage_keys_paged prefix count start_key hash) = refl
request-declared (storage key hash) = refl
request-declared (storage_hash key hash) = refl
request-declared (storage_size key hash) = refl
request-declared (metadata hash) = refl
request-declared (runtime_version hash) = refl
request-declared (query_storage keys at hash) = refl
request-declared (query_storage_at keys at) = refl
request-declared (trace_block at targets storage_keys methods) = refl
request-declared system_name = refl
request-declared system_version = refl
request-declared system_chain = refl
request-declared system_properties = refl
request-declared system_health = refl
request-declared (nonce account) = refl
request-declared (block hash) = refl
request-declared (header hash) = refl
request-declared (block_hash hash) = refl
request-declared finalized_head = refl
request-declared (submit_extrinsic extrinsic) = refl
request-declared pending_extrinsics = refl

subscribe-declared :
    {Json : Type 0} (c : SubscribeCall Json)
    → ((subscribe c).sub_method ≡ (declared_subscription c).name)
      × ((subscribe c).unsub_method ≡ first_or "" (declared_subscription c).unsubscribe)
unfolding subscribe declared_subscription
subscribe-declared (subscribe_storage keys) = (refl, refl)
subscribe-declared subscribe_runtime_version = (refl, refl)
subscribe-declared subscribe_all_heads = (refl, refl)
subscribe-declared subscribe_new_heads = (refl, refl)
subscribe-declared subscribe_finalized_heads = (refl, refl)
subscribe-declared (watch_extrinsic bytes) = (refl, refl)

-- Every method is sent on under the very name, not an alias, that it is offered under; and every
-- subscription is opened at the node, and closed, under the names that it is offered under.
pub relayed-declared :
    {Json : Type 0} (c : RelayCall Json) (s : SubscribeCall Json)
    → ((request c).0 ≡ (declared_method c).name)
      × ((subscribe s).sub_method ≡ (declared_subscription s).name)
      × ((subscribe s).unsub_method ≡ first_or "" (declared_subscription s).unsubscribe)
relayed-declared c s =
    let (opened, closed) = subscribe-declared s in (request-declared c, opened, closed)
