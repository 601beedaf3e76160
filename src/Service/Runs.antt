-- ===== src/Service/Runs.antt =====
-- A start of src/service.rs at which nothing fails.
use Prim.Native.String.{String}
use mathlib.Core.List.{Permᴰ}
use mathlib.Core.List.Permᴰ
use manta_indexer.Prelude.{
  ℕ, ◌%◌, ◌^◌, ◌<◌, ◌≡◌, refl, ap, ◌∙◌, true, Option, none, some, replicate, List, [], ◌∷◌, ◌++◌,
  append_assoc, arith,
}
use manta_indexer.Sync.{max_receivers, max_senders}
use manta_indexer.Service.Calls.{
  Startup, done, sleep, spawn_worker, connect, ask, run_job, export_metrics, serve, callee,
  panicked, or_stop, bind-done, step_at, attempt-true,
}
use manta_indexer.Service.Waits.{LooksUntil, wait_while-ends}
use manta_indexer.Service.Utils.{init, is_the_rpc_methods_existed}
use manta_indexer.Service.Names.{
  indexer_names, relay_names, has-perm, relay_names-Fresh, no_names, Fresh-perm, rpc_methods_fresh,
}
use manta_indexer.Service.Start.{
  Host, Config, init_rpc_methods, ensure_rpc_method, unsynced, server_settings, start_service,
  new_relay_server, register_relay, publish_methods, start_syncing, serve_rpc, as_str, as_integer,
  as_server, check_frequency,
}
use manta_indexer.Service.Opened.{
  Settings, Configured, Opens, opening, later, initialize_db_pool-opens,
}

-- Every call of a host succeeds, and the node replies with some list of methods.
pub record Answers (host : Host) : Type 0 where
  pub opens : Opens host.driver
  pub relay_connects : host.relay_connects ≡ true
  pub spawns_worker : host.spawns_worker ≡ true
  pub sync_connects : host.sync_connects ≡ true
  pub replies : (methods : List String) × (host.node_methods ≡ some methods)
  pub exports : host.exports ≡ true
  pub serves : host.serves ≡ true

ensure_rpc_method-replies :
    (reply : Option (List String)) (methods : List String) (rpc_method : String) (s : Startup)
    → reply ≡ some methods
    → ensure_rpc_method reply rpc_method s ≡ (done tt, later s (ask "rpc_methods" ∷ []))
unfolding ensure_rpc_method is_the_rpc_methods_existed
ensure_rpc_method-replies reply methods rpc_method s h = rw h refl

init_rpc_methods-unset :
    (methods : List String) (s : Startup)
    → s.rpc_methods ≡ none
    → init_rpc_methods methods s
      ≡ (done tt, record s { rpc_methods = some (record { version = 1; methods = methods }) })
unfolding init_rpc_methods init
init_rpc_methods-unset methods s h = rw h refl

check_frequency-below :
    (frequency : ℕ) (s : Startup) → frequency < 12 → check_frequency frequency s ≡ (done tt, s)
check_frequency-below frequency s h = ground (arith, h)

module _ (host : Host) (config : Config) (v : Settings) (answers : Answers host) where
  start_syncing-runs :
      (fuel k : ℕ) (full_node rpc_method : String) (frequency : ℕ) (s : Startup)
      → k < fuel
      → LooksUntil (unsynced host.polls) 0 k
      → start_syncing host fuel full_node rpc_method frequency s ≡ (
        done tt,
        later
            (later
              (later (later s (connect full_node ∷ [])) (ask "rpc_methods" ∷ []))
              (run_job (max_receivers, max_senders) frequency ∷ []))
            (replicate k (sleep 5)),
      )
  unfolding start_syncing
  start_syncing-runs fuel k full_node rpc_method frequency s enough flag =
      bind-done _ _ (attempt-true callee _ _ answers.sync_connects)
      ∙ bind-done _ _ (ensure_rpc_method-replies _ _ _ _ answers.replies.1)
      ∙ bind-done _ _ refl
      ∙ wait_while-ends (unsynced host.polls) 5 fuel 0 k _ enough flag

  -- Where every key is in the configuration with its type, with a frequency below 12, where every call
  -- of the host succeeds and the node replies with any list of methods, where RPC_METHODS is unset and
  -- the first look at the flags that finds one set is the `k`-th from 0, below `fuel`: the start ends
  -- well. It opened the database, then connected to the node, spawned the relay's worker, connected
  -- again, asked for the methods, started the job, slept five seconds `k` times, and only then exported
  -- the metrics and served, in this order and with the configured values; RPC_METHODS is version 1 with
  -- the names of both APIs, none missing and none added, and the server has these and "rpc_methods".
  pub start_service-serves :
      (fuel k : ℕ) (migrations_path : String) (s : Startup)
      → host.read_config ≡ some config
      → Configured config v
      → v.frequency < 12
      → s.rpc_methods ≡ none
      → k < fuel
      → LooksUntil (unsynced host.polls) 0 k
      → (listed served : List String) × (start_service host fuel migrations_path s ≡ (
        done tt,
        record {
          rpc_methods = some (record { version = 1; methods = listed });
          calls =
              s.calls
              ++ opening host.driver migrations_path v.db_path (v.pool_size % 2 ^ 32)
              ++ connect v.full_node
                ∷ spawn_worker
                ∷ connect v.full_node
                ∷ ask "rpc_methods"
                ∷ run_job (max_receivers, max_senders) v.frequency
                ∷ replicate k (sleep 5)
              ++ export_metrics v.monitor_port
                ∷ serve v.port (server_settings v.server) served
                ∷ [];
        },
      ))
        × Permᴰ listed (indexer_names ++ relay_names)
        × Permᴰ served ("rpc_methods" ∷ indexer_names ++ relay_names)
  unfolding start_service new_relay_server register_relay publish_methods serve_rpc
  start_service-serves fuel k migrations_path s reads set often unset enough flag =
      let (own, merged, own_order) = host.registry.merge-perm [] indexer_names no_names in
      let (names, merged2, order) =
        host.registry.merge-perm own relay_names
          (Fresh-perm relay_names own_order relay_names-Fresh) in
      let all : Permᴰ names (indexer_names ++ relay_names) =
        Permᴰ.trans order (Permᴰ.append_right relay_names own_order) in
      let (served, registered, served_order) =
        host.registry.register_method-perm names "rpc_methods"
          (has-perm "rpc_methods" all ∙ rpc_methods_fresh) in
      let listed = host.registry.sort names in
      (
        listed,
        served,
        bind-done _ _ (step_at (λ o. or_stop o callee) _ reads)
            ∙ bind-done _ _ (step_at as_str _ set.full_node)
            ∙ bind-done _ _ (step_at as_str _ set.rpc_method)
            ∙ bind-done _ _ (step_at as_integer _ set.pool_size)
            ∙ bind-done _ _ (step_at as_str _ set.db_path)
            ∙ bind-done _ _ (initialize_db_pool-opens host.driver answers.opens _ _ _ _)
            ∙ bind-done _ _ (step_at (λ o. or_stop o callee) _ merged)
            ∙ bind-done _ _ (step_at as_integer _ set.port)
            ∙ bind-done _ _ (step_at as_integer _ set.monitor_port)
            ∙ bind-done _ _ (step_at as_integer _ set.frequency)
            ∙ bind-done _ _ (check_frequency-below v.frequency _ often)
            ∙ bind-done _ _ (
                bind-done _ _ (
                  bind-done _ _ (attempt-true callee _ _ answers.relay_connects)
                  ∙ attempt-true panicked _ _ answers.spawns_worker)
                ∙ step_at (λ o. or_stop o callee) _ merged2)
            ∙ bind-done _ _ (step_at as_server _ set.server)
            ∙ bind-done _ _ (
                bind-done _ _ (init_rpc_methods-unset _ _ unset)
                ∙ step_at (λ o. or_stop o panicked) _ registered)
            ∙ bind-done _ _ (start_syncing-runs fuel k _ _ _ _ enough flag)
            ∙ bind-done _ _ (attempt-true callee _ _ answers.exports)
            ∙ attempt-true callee _ _ answers.serves
            ∙ ap
                (λ l. (
                  done tt,
                  record {
                    rpc_methods = some (record { version = 1; methods = listed });
                    calls = l;
                  },
                ))
                (simp append_assoc),
        Permᴰ.trans (host.registry.sort-perm names) all,
        Permᴰ.trans served_order (Permᴰ.cons refl all),
      )
