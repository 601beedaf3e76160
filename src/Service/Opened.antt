-- ===== src/Service/Opened.antt =====
-- `initialize_db_pool` (src/db.rs) where nothing fails, and a configuration with every key.
use Prim.Native.String.{String}
use manta_indexer.Prelude.{
  ℕ, ◌≡◌, refl, sym, ap, ◌∙◌, Bool, true, false, Option, none, some, List, [], ◌∷◌, ◌++◌,
  append-nil, append_assoc,
}
use manta_indexer.Service.Calls.{
  Startup, Effect, done, read_migrations, create_database, create_in_wal, acquire, migrate, pragma,
  open_pool, callee, panicked, ◌>>◌, bind-done, attempt-true, attempt, attempt_or,
}
use manta_indexer.Service.Open.{Driver, ensure_database, initialize_db_pool, synchronous_off}
use manta_indexer.Service.Start.{Config, WsServerConfig, str, integer}

-- What the configuration holds, every key there and of its type.
pub record Settings : Type 0 where
  pub full_node : String
  pub rpc_method : String
  pub pool_size : ℕ
  pub db_path : String
  pub port : ℕ
  pub monitor_port : ℕ
  pub frequency : ℕ
  pub server : WsServerConfig

pub record Configured (c : Config) (v : Settings) : Type 0 where
  pub full_node : c.at_key "indexer" "full_node" ≡ some (str v.full_node)
  pub rpc_method : c.at_key "indexer" "rpc_method" ≡ some (str v.rpc_method)
  pub pool_size : c.at_key "db" "pool_size" ≡ some (integer v.pool_size)
  pub db_path : c.at_key "db" "db_path" ≡ some (str v.db_path)
  pub port : c.at_key "indexer" "port" ≡ some (integer v.port)
  pub monitor_port : c.at_key "indexer" "prometheus_port" ≡ some (integer v.monitor_port)
  pub frequency : c.at_key "indexer" "frequency" ≡ some (integer v.frequency)
  pub server : c.server ≡ some (some v.server)

-- Every call of the driver succeeds.
pub record Opens (d : Driver) : Type 0 where
  pub reads_migrations : d.reads_migrations ≡ true
  pub creates_database : d.creates_database ≡ true
  pub connects : d.connects ≡ true
  pub acquires : d.acquires ≡ true
  pub runs_migrations : d.runs_migrations ≡ true
  pub runs_pragma : (n : ℕ) → d.runs_pragma n ≡ true

abbrev pub creation : Option Bool → String → List Effect
creation (some true) db_url = []
creation (some false) db_url = create_in_wal ∷ create_database db_url ∷ []
creation none db_url = create_in_wal ∷ create_database db_url ∷ []

-- A database that is there is not created again.
abbrev pub opening : Driver → String → String → ℕ → List Effect
opening d migrations_path db_url pool_size =
    read_migrations migrations_path ∷ creation d.database_exists db_url
    ++ open_pool db_url pool_size
      ∷ acquire
      ∷ migrate migrations_path
      ∷ pragma synchronous_off
      ∷ pragma synchronous_off
      ∷ []

abbrev pub later : Startup → List Effect → Startup
later s calls = record s { calls = s.calls ++ calls }

module _ (d : Driver) (opens : Opens d) (migrations_path db_url : String) where
  created :
      (s : Startup)
      → (attempt true create_in_wal
            >> attempt_or panicked d.creates_database (create_database db_url))
          s
        ≡ (done tt, later s (create_in_wal ∷ create_database db_url ∷ []))
  created s =
      bind-done _ _ refl
      ∙ attempt-true panicked _ _ opens.creates_database
      ∙ ap (λ l. (done tt, record s { calls = l })) (append_assoc s.calls (create_in_wal ∷ []) _)

  ensure_database-creates :
      (o : Option Bool) (s : Startup)
      → ensure_database d db_url o s ≡ (done tt, later s (creation o db_url))
  unfolding ensure_database
  ensure_database-creates (some true) s =
      ap (λ l. (done tt, record s { calls = l })) (sym (append-nil s.calls))
  ensure_database-creates (some false) s = created s
  ensure_database-creates none s = created s

  pub initialize_db_pool-opens :
      (pool_size : ℕ) (s : Startup)
      → initialize_db_pool d migrations_path db_url pool_size s
        ≡ (done tt, later s (opening d migrations_path db_url pool_size))
  unfolding initialize_db_pool
  initialize_db_pool-opens pool_size s =
      bind-done _ _ (attempt-true callee _ s opens.reads_migrations)
      ∙ bind-done _ _ (ensure_database-creates d.database_exists _)
      ∙ bind-done _ _ (attempt-true callee _ _ opens.connects)
      ∙ bind-done _ _ (attempt-true callee _ _ opens.acquires)
      ∙ bind-done _ _ (attempt-true callee _ _ opens.runs_migrations)
      ∙ bind-done _ _ (attempt-true callee _ _ (opens.runs_pragma 0))
      ∙ attempt-true callee _ _ (opens.runs_pragma 1)
      ∙ ap (λ l. (done tt, record s { calls = l })) (simp append_assoc)
