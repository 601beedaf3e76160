-- ===== src/Service/Start.antt =====
-- `start_service` (src/service.rs). What the crates that it calls and the network answer is a `Host`;
-- sleeping and logging are left out.
use Prim.Native.String.{String}
use mathlib.Core.List.{Permᴰ}
use manta_indexer.Prelude.{
  ℕ, ◌*◌, ◌%◌, ◌^◌, ◌≡◌, Bool, true, false, not, ◌&&◌, Option, none, some, List, [], ◌∷◌, ◌++◌, leb,
  if◌then◌else◌,
}
use manta_indexer.Store.{wrong_config, rpc_method_not_exists}
use manta_indexer.Sync.{max_receivers, max_senders}
use manta_indexer.Service.Calls.{
  done, stopped, Action, ServerSettings, connect, ask, run_job, export_metrics, serve, indexer,
  too_frequent, callee, panicked, pure, stop, or_stop, attempt, attempt_or, wait_while,
  spawn_worker, ◌>>=◌, ◌>>◌,
}
use manta_indexer.Service.Utils.{has, is_the_rpc_methods_existed, init}
use manta_indexer.Service.Open.{Driver, initialize_db_pool}
use manta_indexer.Service.Names.{indexer_names, relay_names, Fresh}

-- `toml::Value`; an integer is an `i64`, by its bit pattern.
pub data Value : Type 0 where
  integer : ℕ → Value
  str : String → Value
  other : Value

-- `WsServerConfig` of src/relayer/mod.rs
pub record WsServerConfig : Type 0 where
  pub max_request_body_size : ℕ
  pub max_response_body_size : ℕ
  pub max_connections : ℕ
  pub max_subscriptions_per_connection : ℕ
  pub max_log_length : ℕ
  pub batch_requests_supported : Bool
  pub ping_interval : ℕ

abbrev ten_megabytes : ℕ
ten_megabytes = 10 * 1024 * 1024

-- `WsServerConfig::default()`
abbrev pub default_ws_server_config : WsServerConfig
default_ws_server_config = record {
  max_request_body_size = ten_megabytes;
  max_response_body_size = ten_megabytes;
  max_log_length = 4096;
  max_subscriptions_per_connection = 100;
  max_connections = 1000;
  batch_requests_supported = true;
  ping_interval = 60;
}

-- The configuration file: `config[section]["configuration"][key]`, `none` where indexing panics, and the
-- section "server" parsed, `some none` where it is there and does not parse.
pub record Config : Type 0 where
  pub at_key : String → String → Option Value
  pub server : Option (Option WsServerConfig)

-- jsonrpsee: a module is seen as its names. `merge` and `register_method` succeed on new names.
pub record Registry : Type 0 where
  pub merge : List String → List String → Option (List String)
  pub register_method : List String → String → Option (List String)
  pub sort : List String → List String
  pub merge-perm :
      (ms ns : List String)
      → Fresh ms ns
      → (names : List String) × (merge ms ns ≡ some names) × Permᴰ names (ms ++ ns)
  pub register_method-perm :
      (ms : List String) (n : String)
      → has n ms ≡ false
      → (names : List String) × (register_method ms n ≡ some names) × Permᴰ names (n ∷ ms)
  pub sort-perm : (ms : List String) → Permᴰ (sort ms) ms

pub record Host : Type 0 where
  pub read_config : Option Config
  pub driver : Driver
  pub registry : Registry
  -- `create_ws_client` for the relay, and again for the synchronization
  pub relay_connects : Bool
  pub sync_connects : Bool
  -- the thread that `MtoMSubClientPool::new` spawns for the relay
  pub spawns_worker : Bool
  -- the node's reply to "rpc_methods"
  pub node_methods : Option (List String)
  -- INIT_SYNCING_FINISHED and SHUTDOWN_FLAG, as the loop reads them
  pub polls : ℕ → Bool × Bool
  -- whether the exporter and the server start, their addresses parsed
  pub exports : Bool
  pub serves : Bool

abbrev pub megabyte : ℕ
megabyte = 1024 * 1024

-- `config[..][..][key].as_str().ok_or(WrongConfig)?`
abbrev pub as_str : Option Value → Action String
as_str none = stop panicked
as_str (some (str v)) = pure v
as_str (some (integer v)) = stop (indexer wrong_config)
as_str (some other) = stop (indexer wrong_config)

-- `config[..][..][key].as_integer().ok_or(WrongConfig)?`
abbrev pub as_integer : Option Value → Action ℕ
as_integer none = stop panicked
as_integer (some (integer v)) = pure v
as_integer (some (str v)) = stop (indexer wrong_config)
as_integer (some other) = stop (indexer wrong_config)

-- `toml::from_str(&config["server"]["configuration"].to_string())?`
abbrev pub as_server : Option (Option WsServerConfig) → Action WsServerConfig
as_server none = stop panicked
as_server (some none) = stop callee
as_server (some (some c)) = pure c

-- `RPC_METHODS.init(..)?`
unfoldable pub init_rpc_methods : List String → Action (Unit {0})
unfolding init
init_rpc_methods methods s =
    let (r, cell) = init (some (record { version = 1; methods = methods })) s.rpc_methods in
    (r, record s { rpc_methods = cell })

-- `.map_err(|_| RpcMethodNotExists)?`; what the call finds is dropped.
unfoldable pub ensure_rpc_method : Option (List String) → String → Action (Unit {0})
unfolding is_the_rpc_methods_existed
ensure_rpc_method reply rpc_method = elim (is_the_rpc_methods_existed reply rpc_method) [
  | done existed ↦ attempt true (ask "rpc_methods")
  | stopped x ↦ attempt true (ask "rpc_methods") >> stop (indexer rpc_method_not_exists)
]

-- The loop on the two flags, for at most `fuel` turns.
abbrev pub unsynced : (ℕ → Bool × Bool) → ℕ → Bool
unsynced polls n = not (polls n).0 && not (polls n).1

abbrev pub wait_synced : (ℕ → Bool × Bool) → ℕ → ℕ → Action (Unit {0})
wait_synced polls = wait_while (unsynced polls) 5

-- The sizes are `u32` products.
abbrev pub server_settings : WsServerConfig → ServerSettings
server_settings c = record {
  connections = c.max_connections;
  request_body_size = c.max_request_body_size * megabyte % 2 ^ 32;
  response_body_size = c.max_response_body_size * megabyte % 2 ^ 32;
  ping = c.ping_interval;
  subscriptions_per_connection = c.max_subscriptions_per_connection;
}

abbrev pub check_frequency : ℕ → Action (Unit {0})
check_frequency frequency = if leb 12 frequency then stop (too_frequent frequency) else pure tt

-- `MantaRpcRelayServer::new`, with the worker thread of its pool, whose spawn is unwrapped.
unfoldable pub new_relay_server : Host → String → Action (Unit {0})
new_relay_server host full_node = do
  attempt host.relay_connects (connect full_node)
  attempt_or panicked host.spawns_worker spawn_worker

-- "create relay rpc handler"
unfoldable pub register_relay : Host → String → List String → Action (List String)
register_relay host full_node indexer_module = do
  new_relay_server host full_node
  or_stop (host.registry.merge indexer_module relay_names) callee

-- `RPC_METHODS` is set, and the method that answers with it registered.
unfoldable pub publish_methods : Host → List String → Action (List String)
publish_methods host module_names = do
  init_rpc_methods (host.registry.sort module_names)
  or_stop (host.registry.register_method module_names "rpc_methods") panicked

-- "start a backend syncing thread."
unfoldable pub start_syncing : Host → ℕ → String → String → ℕ → Action (Unit {0})
start_syncing host fuel full_node rpc_method frequency = do
  attempt host.sync_connects (connect full_node)
  ensure_rpc_method host.node_methods rpc_method
  attempt true (run_job (max_receivers, max_senders) frequency)
  wait_synced host.polls fuel 0

-- "start monitoring service.", and the server.
unfoldable pub serve_rpc : Host → ℕ → ℕ → WsServerConfig → List String → Action (Unit {0})
serve_rpc host monitor_port port srv_config served = do
  attempt host.exports (export_metrics monitor_port)
  attempt host.serves (serve port (server_settings srv_config) served)

unfoldable pub start_service : Host → ℕ → String → Action (Unit {0})
start_service host fuel migrations_path = do
  config ← or_stop host.read_config callee
  full_node ← as_str (config.at_key "indexer" "full_node")
  rpc_method ← as_str (config.at_key "indexer" "rpc_method")
  pool_size ← as_integer (config.at_key "db" "pool_size")
  db_path ← as_str (config.at_key "db" "db_path")
  initialize_db_pool host.driver migrations_path db_path (pool_size % 2 ^ 32)
  indexer_module ← or_stop (host.registry.merge [] indexer_names) callee
  port ← as_integer (config.at_key "indexer" "port")
  monitor_port ← as_integer (config.at_key "indexer" "prometheus_port")
  frequency ← as_integer (config.at_key "indexer" "frequency")
  check_frequency frequency
  module_names ← register_relay host full_node indexer_module
  srv_config ← as_server config.server
  served ← publish_methods host module_names
  start_syncing host fuel full_node rpc_method frequency
  serve_rpc host monitor_port port srv_config served
