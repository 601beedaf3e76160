-- ===== src/Examples/Services.antt =====
-- The start of the service at a concrete host: the repository's configuration, and a node that replies
-- with no method at all.
use Prim.Native.String.{String}
use text.Mathlib.Text.{◌==◌}
use mathlib.Core.List.{Permᴰ}
use mathlib.Core.List.Permᴰ
use manta_indexer.Prelude.{
  ℕ, ◌%◌, ◌^◌, ◌≡◌, refl, true, false, Option, some, none, List, [], ◌∷◌, ◌++◌, arith,
  if◌then◌else◌, ltb, replicate,
}
use manta_indexer.Sync.{max_receivers, max_senders}
use manta_indexer.Service.Calls.{
  Startup, init_logger, register_signal, stop_server, await_tasks, connect, ask, run_job,
  export_metrics, serve, sleep, spawn_worker, done, stopped, too_frequent,
}
use manta_indexer.Service.Open.{Driver}
use manta_indexer.Service.Names.{indexer_names, relay_names}
use manta_indexer.Service.Start.{
  Value, str, integer, Config, WsServerConfig, Registry, Host, default_ws_server_config, unsynced,
  server_settings, start_service,
}
use manta_indexer.Service.Opened.{Settings, Configured, Opens, opening, later}
use manta_indexer.Service.Runs.{Answers, start_service-serves}
use manta_indexer.Service.Cli.{default_cli}
use manta_indexer.Service.Process.{Process, Works, main, main-ends}
use manta_indexer.Service.Limits.{start_service-too_frequent}
use manta_indexer.Service.Ready.{Ready}
use manta_indexer.Service.Waits.{LooksUntil}

abbrev server_config : WsServerConfig
server_config = record default_ws_server_config {
  max_request_body_size = 10;
  max_response_body_size = 10;
  max_subscriptions_per_connection = 1024;
  ping_interval = 30;
}

abbrev settings : ℕ → Settings
settings frequency = record {
  full_node = "ws://127.0.0.1:9800";
  rpc_method = "mantaPay_pull_ledger_diff";
  pool_size = 16;
  db_path = "utxo.db";
  port = 7788;
  monitor_port = 7789;
  frequency = frequency;
  server = server_config;
}

abbrev at_key : ℕ → String → Option Value
at_key frequency key =
    if key == "full_node"
    then some (str "ws://127.0.0.1:9800")
    else if key == "rpc_method"
    then some (str "mantaPay_pull_ledger_diff")
    else if key == "pool_size"
    then some (integer 16)
    else if key == "db_path"
    then some (str "utxo.db")
    else if key == "port"
    then some (integer 7788)
    else if key == "prometheus_port"
    then some (integer 7789)
    else if key == "frequency"
    then some (integer frequency)
    else none

abbrev config : ℕ → Config
config frequency = record {
  at_key = λ section key. at_key frequency key;
  server = some (some server_config);
}

abbrev driver : Driver
driver = record {
  reads_migrations = true;
  database_exists = some false;
  creates_database = true;
  connects = true;
  acquires = true;
  runs_migrations = true;
  runs_pragma = λ n. true;
}

abbrev registry : Registry
registry = record {
  merge = λ ms ns. some (ms ++ ns);
  register_method = λ ms n. some (n ∷ ms);
  sort = λ ms. ms;
  merge-perm = λ ms ns fresh. (ms ++ ns, refl, Permᴰ.refl (ms ++ ns));
  register_method-perm = λ ms n fresh. (n ∷ ms, refl, Permᴰ.refl (n ∷ ms));
  sort-perm = λ ms. Permᴰ.refl ms;
}

abbrev host : ℕ → Host
host frequency = record {
  read_config = some (config frequency);
  driver = driver;
  registry = registry;
  relay_connects = true;
  sync_connects = true;
  node_methods = some [];
  spawns_worker = true;
  -- set at the third look
  polls = λ n. (ltb 1 n, false);
  exports = true;
  serves = true;
}

abbrev at_first : Startup
at_first = record { rpc_methods = none; calls = [] }

configured : (frequency : ℕ) → Configured (config frequency) (settings frequency)
configured frequency = record {
  full_node = refl;
  rpc_method = refl;
  pool_size = refl;
  db_path = refl;
  port = refl;
  monitor_port = refl;
  frequency = refl;
  server = refl;
}

driver-Opens : Opens driver
driver-Opens = record {
  reads_migrations = refl;
  creates_database = refl;
  connects = refl;
  acquires = refl;
  runs_migrations = refl;
  runs_pragma = λ n. refl;
}

host-Answers : (frequency : ℕ) → Answers (host frequency)
host-Answers frequency = record {
  opens = driver-Opens;
  relay_connects = refl;
  spawns_worker = refl;
  sync_connects = refl;
  replies = ([], refl);
  exports = refl;
  serves = refl;
}

host-LooksUntil : LooksUntil (unsynced (host 2).polls) 0 2
host-LooksUntil = record { waits = λ j before. ground (arith, before); over = refl }

start_service-serves_example :
    (listed served : List String) × (start_service (host 2) 3 "./migrations" at_first ≡ (
      done tt,
      record {
        rpc_methods = some (record { version = 1; methods = listed });
        calls =
            []
            ++ opening driver "./migrations" "utxo.db" (16 % 2 ^ 32)
            ++ connect "ws://127.0.0.1:9800"
              ∷ spawn_worker
              ∷ connect "ws://127.0.0.1:9800"
              ∷ ask "rpc_methods"
              ∷ run_job (max_receivers, max_senders) 2
              ∷ replicate 2 (sleep 5)
            ++ export_metrics 7789 ∷ serve 7788 (server_settings server_config) served ∷ [];
      },
    ))
    × Permᴰ listed (indexer_names ++ relay_names)
    × Permᴰ served ("rpc_methods" ∷ indexer_names ++ relay_names)
start_service-serves_example =
    start_service-serves (host 2) (config 2) (settings 2) (host-Answers 2) 3 2 "./migrations"
      at_first refl (configured 2) (omega arith) refl (omega arith) host-LooksUntil

start_service-too_frequent_example : start_service (host 12) 1 "./migrations" at_first ≡ (
  stopped (too_frequent 12),
  later at_first (opening driver "./migrations" "utxo.db" (16 % 2 ^ 32)),
)
start_service-too_frequent_example =
    start_service-too_frequent (host 12) (config 12) (settings 12) 1 "./migrations" at_first refl
      (configured 12) driver-Opens (omega arith)

abbrev process : Process
process = record {
  args = default_cli;
  logs = true;
  registers = λ signal. true;
  host = host 2;
  shutdown = λ n. ltb 0 n;
  stops = true;
  tasks_end = true;
}

process-Works : Works process
process-Works = record {
  logs = refl;
  registers = λ signal. refl;
  answers = host-Answers 2;
  stops = refl;
  tasks_end = refl;
}

main-ends_example :
    (listed served : List String) × (main process 3 at_first ≡ (
      done tt,
      record {
        rpc_methods = some (record { version = 1; methods = listed });
        calls =
            init_logger "./conf/log.yaml"
              ∷ register_signal "SIGINT"
              ∷ register_signal "SIGTERM"
              ∷ register_signal "SIGQUIT"
              ∷ opening driver "./migrations" "utxo.db" (16 % 2 ^ 32)
            ++ connect "ws://127.0.0.1:9800"
              ∷ spawn_worker
              ∷ connect "ws://127.0.0.1:9800"
              ∷ ask "rpc_methods"
              ∷ run_job (max_receivers, max_senders) 2
              ∷ replicate 2 (sleep 5)
            ++ export_metrics 7789
              ∷ serve 7788 (server_settings server_config) served
              ∷ replicate 1 (sleep 3)
            ++ stop_server ∷ await_tasks ∷ [];
      },
    ))
    × Permᴰ served ("rpc_methods" ∷ indexer_names ++ relay_names)
main-ends_example =
    main-ends process (config 2) (settings 2) 3 2 1 process-Works refl (configured 2) (omega arith)
      (omega arith) host-LooksUntil (omega arith)
      (record { waits = λ j before. ground (arith, before); over = refl })
