-- ===== src/Store/Calm.antt =====
-- Statements in a world where none fails: a query reads the tables and changes nothing, and an
-- update changes the tables alone.
use manta_indexer.Prelude.{List, [], ◌∷◌, ◌≡◌, refl}
use manta_indexer.External.{External}
use manta_indexer.Store.{
  Tables, World, Result, ok, err, sqlx, row_not_found, statement, query, execute, first_row,
  fetch_one,
}

abbrev pub first_of_rows : {A : Type 0} → List A → Result A
first_of_rows [] = err (sqlx row_not_found)
first_of_rows (r ∷ rs) = ok r

first_row-eq :
    {e : External} {A : Type 0} (rows : List A) (w : World e)
    → first_row rows w ≡ (first_of_rows rows, w)
first_row-eq [] w = refl
first_row-eq (r ∷ rs) w = refl

module _ {e : External} (w : World e) (calm : w.faults ≡ []) where
  pub statement-calm :
      {A : Type 0} (run : Tables → A × Tables)
      → statement run w ≡ (ok (run w.tables).0, record w { tables = (run w.tables).1 })
  unfolding statement
  statement-calm run = rw calm

  pub query-calm : {A : Type 0} (f : Tables → A) → query f w ≡ (ok (f w.tables), w)
  query-calm f = statement-calm (λ t. (f t, t))

  pub execute-calm : (f : Tables → Tables) → execute f w ≡ (ok tt, record w { tables = f w.tables })
  execute-calm f = statement-calm (λ t. (tt, f t))

  pub fetch_one-calm :
      {A : Type 0} (f : Tables → List A) → fetch_one f w ≡ (first_of_rows (f w.tables), w)
  unfolding fetch_one
  fetch_one-calm f = rw calm (first_row-eq (f w.tables) (record w { faults = [] }))
