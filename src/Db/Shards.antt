-- ===== src/Db/Shards.antt =====
-- src/db.rs: what an insertion into `shards` does to the later reads, where no statement fails.
use manta_indexer.Prelude.{
  ℕ, ◌+◌, ◌≡◌, refl, sym, ap, ◌∙◌, Bool, true, false, ◌&&◌, ◌||◌, List, [], ◌∷◌, ◌++◌, length,
  filter, filter-append, length-append, Bool-cases, inl, inr, ◌==◌, if◌then◌else◌,
}
use manta_indexer.External.{Shard, External}
use manta_indexer.Store.{World, Result, ok, err}
use manta_indexer.Store.Calm.{execute-calm}
use manta_indexer.Db.Calm.{has_shard-calm, count_of_utxo-calm, nonempty}
use manta_indexer.Db.{at_index, in_shard, insert_one_shard, has_shard, count_of_utxo}

module _ (e : External) (w : World e) (calm : w.faults ≡ []) where
  abbrev value_or : {A : Type 0} → A → Result A → A
  value_or x (ok y) = y
  value_or x (err z) = x

  grown :
      (s : ℕ) (r : Shard) (rows : List Shard)
      → length (filter (in_shard s) (rows ++ r ∷ []))
        ≡ length (filter (in_shard s) rows) + (if in_shard s r then 1 else 0)
  grown s r rows =
      rw (filter-append, length-append)
        (elim (Bool-cases (in_shard s r)) [ inl here ↦ rw here refl | inr away ↦ rw away refl ])

  or_true : (b : Bool) → (b || true) ≡ true
  or_true false = refl
  or_true true = refl

  present :
      (s i : ℕ) (r : Shard) (rows : List Shard)
      → nonempty (filter (at_index s i) (rows ++ r ∷ []))
        ≡ (at_index s i r || nonempty (filter (at_index s i) rows))
  present s i r [] = elim (Bool-cases (at_index s i r)) [
    | inl here ↦ rw here refl
    | inr away ↦ rw away refl
  ]
  present s i r (x ∷ rows) = elim (Bool-cases (at_index s i x)) [
    | inl here ↦ rw here (sym (or_true (at_index s i r)))
    | inr away ↦ rw away (present s i r rows)
  ]

  -- In a world where no statement fails, with whatever rows are there: the insertion of a shard
  -- succeeds; afterwards the count of a shard index is what it was, and one more for the shard index
  -- inserted at, even where the row's index was taken already; and an index is found when it is the
  -- inserted one or was found before.
  pub insert_one_shard-counts :
      (s i : ℕ) (utxo : e.Utxo) (note : e.FullIncomingNote) (s' i' n : ℕ) (was : Bool)
      → count_of_utxo e s' w ≡ (ok n, w)
      → has_shard e s' i' w ≡ (ok was, w)
      → (w' : World e) × (insert_one_shard e s i utxo note w ≡ (ok tt, w'))
        × (count_of_utxo e s' w' ≡ (ok (n + (if s == s' then 1 else 0)), w'))
        × (has_shard e s' i' w' ≡ (ok ((s == s' && i == i') || was), w'))
  unfolding insert_one_shard
  insert_one_shard-counts s i utxo note s' i' n was counted seen =
      let row : Shard = record {
        shard_index = s;
        utxo_index = i;
        utxo = e.utxo.encode utxo;
        full_incoming_note = e.note.encode note;
      } in
      let w' : World e = record w {
        tables = record w.tables { shards = w.tables.shards ++ row ∷ [] };
      } in
      let n-rows : n ≡ length (filter (in_shard s') w.tables.shards) =
        ap (λ r. value_or 0 r.0) (sym counted ∙ count_of_utxo-calm e w calm s') in
      let was-rows : was ≡ nonempty (filter (at_index s' i') w.tables.shards) =
        ap (λ r. value_or false r.0) (sym seen ∙ has_shard-calm e w calm s' i') in
      (
        w',
        execute-calm w calm (λ t. record t { shards = t.shards ++ row ∷ [] }),
        count_of_utxo-calm e w' calm s'
            ∙ ap (λ k. (ok k, w'))
                (grown s' row w.tables.shards
                  ∙ ap (λ k. k + (if s == s' then 1 else 0)) (sym n-rows)),
        has_shard-calm e w' calm s' i'
            ∙ ap (λ b. (ok b, w'))
                (present s' i' row w.tables.shards
                  ∙ ap (λ b. (s == s' && i == i') || b) (sym was-rows)),
      )
