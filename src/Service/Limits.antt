-- ===== src/Service/Limits.antt =====
-- The limit in src/service.rs on the frequency.
use Prim.Native.String.{String}
use manta_indexer.Prelude.{ℕ, ◌%◌, ◌^◌, ◌≤◌, ◌≡◌, ◌∙◌, some, [], arith}
use manta_indexer.Service.Calls.{
  Startup, stopped, too_frequent, callee, or_stop, bind-done, bind-stopped, step_at,
}
use manta_indexer.Service.Names.{indexer_names, no_names}
use manta_indexer.Service.Start.{Host, Config, as_str, as_integer, check_frequency, start_service}
use manta_indexer.Service.Opened.{
  Settings, Configured, Opens, opening, later, initialize_db_pool-opens,
}

refused :
    (frequency : ℕ) (s : Startup)
    → 12 ≤ frequency
    → check_frequency frequency s ≡ (stopped (too_frequent frequency), s)
refused frequency s h = ground (arith, h)

-- Where the configuration is complete and the database opens, with a frequency of 12 or more as a
-- `u64`, a negative one included: the start ends with the error on the frequency, and after the
-- database nothing was called, neither a node nor a server, and RPC_METHODS is as it was.
pub start_service-too_frequent :
    (host : Host) (config : Config) (v : Settings) (fuel : ℕ) (migrations_path : String)
    → (s : Startup) → host.read_config ≡ some config
    → Configured config v
    → Opens host.driver
    → 12 ≤ v.frequency
    → start_service host fuel migrations_path s ≡ (
      stopped (too_frequent v.frequency),
      later s (opening host.driver migrations_path v.db_path (v.pool_size % 2 ^ 32)),
    )
unfolding start_service
start_service-too_frequent host config v fuel migrations_path s reads set opens often =
    let (own, merged, _) = host.registry.merge-perm [] indexer_names no_names in
    bind-done _ _ (step_at (λ o. or_stop o callee) _ reads)
    ∙ bind-done _ _ (step_at as_str _ set.full_node)
    ∙ bind-done _ _ (step_at as_str _ set.rpc_method)
    ∙ bind-done _ _ (step_at as_integer _ set.pool_size)
    ∙ bind-done _ _ (step_at as_str _ set.db_path)
    ∙ bind-done _ _ (initialize_db_pool-opens host.driver opens _ _ _ _)
    ∙ bind-done _ _ (step_at (λ o. or_stop o callee) _ merged)
    ∙ bind-done _ _ (step_at as_integer _ set.port)
    ∙ bind-done _ _ (step_at as_integer _ set.monitor_port)
    ∙ bind-done _ _ (step_at as_integer _ set.frequency)
    ∙ bind-stopped _ _ (refused v.frequency _ often)
