-- ===== src/Service/Process.antt =====
-- src/main.rs: the process around the service, from its signals to its end.
use Prim.Native.String.{String}
use mathlib.Core.List.{Permᴰ}
use manta_indexer.Prelude.{
  ℕ, ◌%◌, ◌^◌, ◌<◌, ◌≡◌, refl, ap, ◌∙◌, Bool, true, not, none, some, List, [], ◌∷◌, ◌++◌,
  append_assoc, replicate,
}
use manta_indexer.Sync.{max_receivers, max_senders}
use manta_indexer.Service.Calls.{
  Action, done, callee, waiting, sleep, spawn_worker, wait_while, attempt_or, init_logger,
  register_signal, stop_server, await_tasks, connect, ask, run_job, export_metrics, serve, attempt,
  attempt-true, bind-done, ◌>>◌,
}
use manta_indexer.Service.Cli.{IndexerCli, log_config}
use manta_indexer.Service.Waits.{LooksUntil, wait_while-ends}
use manta_indexer.Service.Names.{indexer_names, relay_names}
use manta_indexer.Service.Start.{Host, Config, unsynced, server_settings, start_service}
use manta_indexer.Service.Opened.{Settings, Configured, opening}
use manta_indexer.Service.Runs.{Answers, start_service-serves}

-- The command line, and what is answered to the process; `shutdown` is SHUTDOWN_FLAG as the loop of
-- `main` reads it.
pub record Process : Type 0 where
  pub args : IndexerCli
  pub logs : Bool
  pub registers : String → Bool
  pub host : Host
  pub shutdown : ℕ → Bool
  pub stops : Bool
  -- whether every task drops its sender, without which `recv` does not return
  pub tasks_end : Bool

-- `while !SHUTDOWN_FLAG.load(SeqCst)`, for at most `fuel` turns.
abbrev pub wait_shutdown : (ℕ → Bool) → ℕ → ℕ → Action (Unit {0})
wait_shutdown shutdown = wait_while (λ n. not (shutdown n)) 3

abbrev register : Process → String → Action (Unit {0})
register p signal = attempt (p.registers signal) (register_signal signal)

-- `main`, which ignores the command; the last call ends when every task has dropped its sender, and its result is dropped.
unfoldable pub main : Process → ℕ → Action (Unit {0})
main p fuel = do
  attempt p.logs (init_logger (log_config p.args))
  register p "SIGINT"
  register p "SIGTERM"
  register p "SIGQUIT"
  start_service p.host fuel p.args.migrations_path
  wait_shutdown p.shutdown fuel 0
  attempt p.stops stop_server
  attempt_or waiting p.tasks_end await_tasks

-- Every call of the process succeeds.
pub record Works (p : Process) : Type 0 where
  pub logs : p.logs ≡ true
  pub registers : (signal : String) → p.registers signal ≡ true
  pub answers : Answers p.host
  pub stops : p.stops ≡ true
  pub tasks_end : p.tasks_end ≡ true

-- In a fresh process with a complete configuration, a frequency below 12, calls that succeed and tasks
-- that all drop their senders, where the start's wait first finds a flag set at look `k` and the
-- process finds SHUTDOWN_FLAG set first at look `j`, both below the fuel: the process ends well, and
-- its calls are the logger, the three signals, the whole start with its `k` sleeps of five seconds, `j`
-- sleeps of three seconds, and only then the stop of the server and the wait for the tasks, in this
-- order and nothing else.
pub main-ends :
    (p : Process) (config : Config) (v : Settings) (fuel k j : ℕ)
    → Works p
    → p.host.read_config ≡ some config
    → Configured config v
    → v.frequency < 12
    → k < fuel
    → LooksUntil (unsynced p.host.polls) 0 k
    → j < fuel
    → LooksUntil (λ n. not (p.shutdown n)) 0 j
    → (listed served : List String) × (main p fuel (record { rpc_methods = none; calls = [] }) ≡ (
      done tt,
      record {
        rpc_methods = some (record { version = 1; methods = listed });
        calls =
            init_logger (log_config p.args)
              ∷ register_signal "SIGINT"
              ∷ register_signal "SIGTERM"
              ∷ register_signal "SIGQUIT"
              ∷ opening p.host.driver p.args.migrations_path v.db_path (v.pool_size % 2 ^ 32)
            ++ connect v.full_node
              ∷ spawn_worker
              ∷ connect v.full_node
              ∷ ask "rpc_methods"
              ∷ run_job (max_receivers, max_senders) v.frequency
              ∷ replicate k (sleep 5)
            ++ export_metrics v.monitor_port
              ∷ serve v.port (server_settings v.server) served
              ∷ replicate j (sleep 3)
            ++ stop_server ∷ await_tasks ∷ [];
      },
    ))
      × Permᴰ served ("rpc_methods" ∷ indexer_names ++ relay_names)
unfolding main
main-ends p config v fuel k j works reads set often enough flag enough' over =
    let (listed, served, runs, _, order) =
      start_service-serves p.host config v works.answers fuel k p.args.migrations_path _ reads set
        often refl enough flag in
    (
      listed,
      served,
      bind-done _ _ (attempt-true callee _ _ works.logs)
          ∙ bind-done _ _ (attempt-true callee _ _ (works.registers "SIGINT"))
          ∙ bind-done _ _ (attempt-true callee _ _ (works.registers "SIGTERM"))
          ∙ bind-done _ _ (attempt-true callee _ _ (works.registers "SIGQUIT"))
          ∙ bind-done _ _ runs
          ∙ bind-done _ _ (wait_while-ends (λ n. not (p.shutdown n)) 3 fuel 0 j _ enough' over)
          ∙ bind-done _ _ (attempt-true callee _ _ works.stops)
          ∙ attempt-true waiting _ _ works.tasks_end
          ∙ ap
              (λ l. (
                done tt,
                record { rpc_methods = some (record { version = 1; methods = listed }); calls = l },
              ))
              (simp append_assoc),
      order,
    )
