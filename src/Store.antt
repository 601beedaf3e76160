-- ===== src/Store.antt =====
-- How the indexer runs: the SQLite tables (migrations/0_schema.sql), the shared LRU cache, and
-- statements that can fail. A call takes the world and gives its result beside the new world.
pub mod Bind
pub mod Calm
pub mod Effects
use manta_indexer.Prelude.{ℕ, Bool, true, false, Option, none, some, List, [], ◌∷◌, if◌then◌else◌}
use manta_indexer.External.{Bytes, Shard, Nullifier, External}

-- `sqlx::Error`: a missing row, or any other failure of a statement.
pub data SqlxError : Type 0 where
  row_not_found database : SqlxError

-- `IndexerError` of src/errors.rs; the texts that two of them carry are left out.
pub data IndexerError : Type 0 where
  request_time_out full_node_is_down bad_utxo : IndexerError
  decoded_error wrong_config rpc_method_not_exists : IndexerError
  wrong_little_endian_array unknown json_rpsee_error : IndexerError
  db_fetch_error : SqlxError → IndexerError

-- `anyhow::Error`, by what it holds. `panicked` is a call that does not return.
pub data Failure : Type 0 where
  indexer : IndexerError → Failure
  sqlx : SqlxError → Failure
  codec json_rpsee panicked : Failure

pub data Result {ℓ} (A : Type ℓ) : Type ℓ where
  ok : A → Result A
  err : Failure → Result A

-- `senders_receivers_total` has one row at most: its key `id` is always true.
pub record Tables : Type 0 where
  pub shards : List Shard
  pub nullifier : List Nullifier
  pub senders_receivers_total : Option Bytes

module _ (e : External) where
  -- `faults` says of each statement to come whether it fails; past its end none fails.
  pub record World : Type 0 where
    pub tables : Tables
    pub cache : e.lru.Cache
    pub faults : List Bool

abbrev pub fails : List Bool → Bool
fails [] = false
fails (b ∷ bs) = b

abbrev pub later : List Bool → List Bool
later [] = []
later (b ∷ bs) = bs

abbrev pub Action : External → Type 0 → Type 0
Action e A = World e → Result A × World e

module _ {e : External} {A : Type 0} where
  abbrev pub pure : A → Action e A
  pure a w = (ok a, w)

  abbrev pub raise : Failure → Action e A
  raise x w = (err x, w)

  -- `option.ok_or(x)?`
  abbrev pub or_raise : Option A → Failure → Action e A
  or_raise none x w = (err x, w)
  or_raise (some a) x w = (ok a, w)

  -- A statement of SQLite: it fails with no effect, or it reads and writes the tables.
  unfoldable pub statement : (Tables → A × Tables) → Action e A
  statement run w =
      if fails w.faults
      then (err (sqlx database), record w { faults = later w.faults })
      else (ok (run w.tables).0, record w { tables = (run w.tables).1; faults = later w.faults })

  -- A transaction that is dropped before its commit succeeds is rolled back.
  unfoldable pub in_transaction : Action e A → Action e A
  in_transaction m w =
      let (r, w') = m w in
      elim r [ ok a ↦ (ok a, w') | err x ↦ (err x, record w' { tables = w.tables }) ]

  -- Work on the cache alone, under its lock.
  unfoldable pub with_cache : (e.lru.Cache → A × e.lru.Cache) → Action e A
  with_cache f w = (ok (f w.cache).0, record w { cache = (f w.cache).1 })

module _ {e : External} {A B : Type 0} where
  infixl 5 ◌>>=◌ ◌>>◌
  unfoldable pub ◌>>=◌ : Action e A → (A → Action e B) → Action e B
  ◌>>=◌ m f w = let (r, w') = m w in elim r [ ok a ↦ f a w' | err x ↦ (err x, w') ]

  abbrev pub ◌>>◌ : Action e A → Action e B → Action e B
  m >> k = m >>= λ _. k

-- Reads and writes as statements.
module _ {e : External} where
  abbrev pub query : {A : Type 0} → (Tables → A) → Action e A
  query f = statement λ t. (f t, t)

  abbrev pub execute : (Tables → Tables) → Action e (Unit {0})
  execute f = statement λ t. (tt, f t)

  -- `fetch_one`: the first row that the query gives.
  abbrev pub first_row : {A : Type 0} → List A → Action e A
  first_row [] w = (err (sqlx row_not_found), w)
  first_row (r ∷ rs) w = (ok r, w)

  unfoldable pub fetch_one : {A : Type 0} → (Tables → List A) → Action e A
  unfolding statement ◌>>=◌
  fetch_one f = do rows ← query f; first_row rows
