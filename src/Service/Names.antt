-- ===== src/Service/Names.antt =====
-- The names of the methods that the server offers: those of the indexer's API (src/indexer/mod.rs) and
-- those of the relay's (src/relayer/relay_server.rs), with aliases and the names that end a
-- subscription.
use Prim.Native.String.{String}
use text.Mathlib.Text.{◌==◌}
use mathlib.Core.List.{Permᴰ}
use manta_indexer.Prelude.{
  ◌≡◌, refl, arith, ◌∙◌, Bool, false, ◌||◌, List, [], ◌∷◌, ◌++◌, map, All, Bool-cases, inl, inr,
}
use manta_indexer.Relay.{
  RelayCall, SubscribeCall, Declared, declared_method, declared_subscription, call, storage_pairs,
  storage_keys_paged, storage, storage_hash, storage_size, metadata, runtime_version, query_storage,
  query_storage_at, trace_block, system_name, system_version, system_chain, system_properties,
  system_health, nonce, block, header, block_hash, finalized_head, submit_extrinsic,
  pending_extrinsics, subscribe_storage, subscribe_runtime_version, subscribe_all_heads,
  subscribe_new_heads, subscribe_finalized_heads, watch_extrinsic,
}
use manta_indexer.Service.Utils.{has}

-- `MantaPayIndexerApi`, in the namespace mantaPay.
abbrev pub indexer_names : List String
indexer_names = "mantaPay_pull_ledger_diff" ∷ "mantaPay_dense_pull_ledger_diff" ∷ []

abbrev names_of : Declared → List String
names_of d = d.name ∷ d.aliases ++ d.unsubscribe

abbrev every_call : List (RelayCall (Unit {0}))
every_call =
    call tt tt tt
    ∷ storage_pairs tt tt
    ∷ storage_keys_paged tt tt tt tt
    ∷ storage tt tt
    ∷ storage_hash tt tt
    ∷ storage_size tt tt
    ∷ metadata tt
    ∷ runtime_version tt
    ∷ query_storage tt tt tt
    ∷ query_storage_at tt tt
    ∷ trace_block tt tt tt tt
    ∷ system_name
    ∷ system_version
    ∷ system_chain
    ∷ system_properties
    ∷ system_health
    ∷ nonce tt
    ∷ block tt
    ∷ header tt
    ∷ block_hash tt
    ∷ finalized_head
    ∷ submit_extrinsic tt
    ∷ pending_extrinsics
    ∷ []

abbrev every_subscription : List (SubscribeCall (Unit {0}))
every_subscription =
    subscribe_storage tt
    ∷ subscribe_runtime_version
    ∷ subscribe_all_heads
    ∷ subscribe_new_heads
    ∷ subscribe_finalized_heads
    ∷ watch_extrinsic tt
    ∷ []

abbrev all_names : List Declared → List String
all_names [] = []
all_names (d ∷ ds) = names_of d ++ all_names ds

-- `MantaRelayApi`
unfoldable pub relay_names : List String
unfolding declared_method declared_subscription
relay_names =
    all_names (map declared_method every_call ++ map declared_subscription every_subscription)

module _ (name : String) where
  has-append : (ms ns : List String) → has name (ms ++ ns) ≡ (has name ms || has name ns)
  unfolding has
  has-append [] ns = refl
  has-append (m ∷ ms) ns = elim (Bool-cases (m == name)) [
    | inl same ↦ rw same refl
    | inr other ↦ rw other (has-append ms ns)
  ]

  or_swap : (a b c : Bool) → (a || (b || c)) ≡ (b || (a || c))
  or_swap a b c = ground arith

  -- The order of names does not matter.
  pub has-perm : {ms ns : List String} → Permᴰ ms ns → has name ms ≡ has name ns
  unfolding has
  has-perm Permᴰ.nil = refl
  has-perm (Permᴰ.cons q p) = rw (q, has-perm p) refl
  has-perm (Permᴰ.swap {l = l} q q') = rw (q, q') (or_swap _ _ (has name l))
  has-perm (Permᴰ.trans p q) = has-perm p ∙ has-perm q

-- None of the names is among others.
abbrev pub Fresh : List String → List String → Type 0
Fresh ms ns = All (λ n. has n ms ≡ false) ns

abbrev none_has : List String → List String → Bool
none_has ms [] = false
none_has ms (n ∷ ns) = has n ms || none_has ms ns

none_has-Fresh : (ms ns : List String) → none_has ms ns ≡ false → Fresh ms ns
none_has-Fresh ms [] h = tt
none_has-Fresh ms (n ∷ ns) h = elim (Bool-cases (has n ms)) [
  | inl found ↦ absurd (cc (rw found at h))
  | inr fresh ↦ (fresh, none_has-Fresh ms ns (rw fresh at h))
]

pub no_names : Fresh [] indexer_names
unfolding has
no_names = (refl, (refl, tt))

-- The two APIs have no name in common, and none is "rpc_methods".
pub relay_names-Fresh : Fresh indexer_names relay_names
unfolding relay_names has
relay_names-Fresh = none_has-Fresh indexer_names relay_names refl

pub rpc_methods_fresh : has "rpc_methods" (indexer_names ++ relay_names) ≡ false
unfolding relay_names has
rpc_methods_fresh = refl

pub Fresh-perm :
    {ms ms' : List String} (ns : List String) → Permᴰ ms ms' → Fresh ms' ns → Fresh ms ns
Fresh-perm [] p fresh = tt
Fresh-perm (n ∷ ns) p fresh = (has-perm n p ∙ fresh.0, Fresh-perm ns p fresh.1)
