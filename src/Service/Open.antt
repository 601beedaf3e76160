-- ===== src/Service/Open.antt =====
-- `initialize_db_pool` (src/db.rs), over what the driver answers.
use Prim.Native.String.{String}
use manta_indexer.Prelude.{ℕ, Bool, true, false, Option, none, some}
use manta_indexer.Service.Calls.{
  Action, read_migrations, create_database, create_in_wal, acquire, migrate, pragma, open_pool,
  attempt, attempt_or, panicked, pure, ◌>>◌,
}

-- What sqlx answers: whether each call succeeds, and of `database_exists` also what it finds.
pub record Driver : Type 0 where
  pub reads_migrations : Bool
  pub database_exists : Option Bool
  pub creates_database : Bool
  pub connects : Bool
  pub acquires : Bool
  pub runs_migrations : Bool
  pub runs_pragma : ℕ → Bool

-- `CREATE_DB_WAL.store(true, ..)`
abbrev pub in_wal : Action (Unit {0})
in_wal = attempt true create_in_wal

-- "ensure the db exists."
unfoldable pub ensure_database : Driver → String → Option Bool → Action (Unit {0})
ensure_database d db_url (some true) = pure tt
ensure_database d db_url (some false) =
    in_wal >> attempt_or panicked d.creates_database (create_database db_url)
ensure_database d db_url none =
    in_wal >> attempt_or panicked d.creates_database (create_database db_url)

abbrev pub synchronous_off : String
synchronous_off = "PRAGMA synchronous = OFF;"

unfoldable pub initialize_db_pool : Driver → String → String → ℕ → Action (Unit {0})
initialize_db_pool d migrations_path db_url pool_size = do
  attempt d.reads_migrations (read_migrations migrations_path)
  ensure_database d db_url d.database_exists
  attempt d.connects (open_pool db_url pool_size)
  attempt d.acquires acquire
  attempt d.runs_migrations (migrate migrations_path)
  attempt (d.runs_pragma 0) (pragma synchronous_off)
  attempt (d.runs_pragma 1) (pragma synchronous_off)
