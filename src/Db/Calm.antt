-- ===== src/Db/Calm.antt =====
-- The queries of src/db.rs where no statement fails.
use mathlib.Core.List.{Permᴰ}
use manta_indexer.Prelude.{
  some, ℕ, ◌^◌, ◌<◌, Bool, true, false, ◌&&◌, List, [], ◌∷◌, ◌≡◌, refl, ap, ◌∙◌, arith, length,
  filter, member, lt→ltb, perm-length, filter-filter,
}
use manta_indexer.External.{Bytes, Shard, Nullifier, External}
use manta_indexer.Store.{World, ok}
use manta_indexer.Store.Calm.{query-calm, fetch_one-calm, first_of_rows}
use manta_indexer.Db.{
  get_total_senders_receivers, at_index, in_shard, has_idx, succeeded, has_shard, has_nullifier,
  get_batched_shards_by_idxs, get_batched_nullifier_by_idxs, get_len_of_nullifier, count_of_utxo,
}

-- Whether a list has an element.
abbrev pub nonempty : {A : Type 0} → List A → Bool
nonempty [] = false
nonempty (x ∷ xs) = true

succeeded-first : {A : Type 0} (rows : List A) → succeeded (first_of_rows rows) ≡ nonempty rows
succeeded-first [] = refl
succeeded-first (r ∷ rs) = refl

nonempty-length : {A : Type 0} (xs ys : List A) → length xs ≡ length ys → nonempty xs ≡ nonempty ys
nonempty-length [] [] h = refl
nonempty-length [] (y ∷ ys) h = absurd (omega arith)
nonempty-length (x ∷ xs) [] h = absurd (omega arith)
nonempty-length (x ∷ xs) (y ∷ ys) h = refl

filter-none : {A : Type 0} (xs : List A) → filter (λ x. false) xs ≡ []
filter-none [] = refl
filter-none (x ∷ xs) = filter-none xs

module _ (e : External) (w : World e) (calm : w.faults ≡ []) where
  open e.sqlite use {
    arrange_shards, arrange_nullifiers, arrange_shards-perm, arrange_nullifiers-perm,
  }

  -- A shard has an index exactly when it has a row there.
  pub has_shard-calm :
      (s u : ℕ) → has_shard e s u w ≡ (ok (nonempty (filter (at_index s u) w.tables.shards)), w)
  unfolding has_shard
  has_shard-calm s u =
      ap (λ r. (ok (succeeded r.0), r.1))
        (fetch_one-calm w calm (λ t. arrange_shards (filter (at_index s u) t.shards)))
      ∙ ap (λ b. (ok b, w))
          (succeeded-first (arrange_shards rows)
            ∙ nonempty-length (arrange_shards rows) rows (perm-length (arrange_shards-perm rows)))
    where
      rows : List Shard
      rows = filter (at_index s u) w.tables.shards

  pub has_nullifier-calm :
      (u : ℕ) → has_nullifier e u w ≡ (ok (nonempty (filter (has_idx u) w.tables.nullifier)), w)
  unfolding has_nullifier
  has_nullifier-calm u =
      ap (λ r. (ok (succeeded r.0), r.1))
        (fetch_one-calm w calm (λ t. arrange_nullifiers (filter (has_idx u) t.nullifier)))
      ∙ ap (λ b. (ok b, w))
          (succeeded-first (arrange_nullifiers rows)
            ∙ nonempty-length (arrange_nullifiers rows) rows
                (perm-length (arrange_nullifiers-perm rows)))
    where
      rows : List Nullifier
      rows = filter (has_idx u) w.tables.nullifier

  -- The rows of a shard whose index is asked for, in some order.
  pub get_batched_shards-calm :
      (s : ℕ) (is : List ℕ)
      → (rows : List Shard) × (get_batched_shards_by_idxs e s is w ≡ (ok rows, w))
        × Permᴰ rows (filter (λ r. member r.utxo_index is) (filter (in_shard s) w.tables.shards))
  unfolding get_batched_shards_by_idxs
  get_batched_shards-calm s [] = ([], refl, rw filter-none Permᴰ.nil)
  get_batched_shards-calm s (i ∷ is) = (
    arrange_shards (filter (λ r. in_shard s r && member r.utxo_index (i ∷ is)) w.tables.shards),
    query-calm w calm
        (λ t. arrange_shards (filter (λ r. in_shard s r && member r.utxo_index (i ∷ is)) t.shards)),
    rw (← filter-filter) (arrange_shards-perm _),
  )

  pub get_batched_nullifier-calm :
      (is : List ℕ)
      → (rows : List Nullifier) × (get_batched_nullifier_by_idxs e is w ≡ (ok rows, w))
        × Permᴰ rows (filter (λ r. member r.idx is) w.tables.nullifier)
  unfolding get_batched_nullifier_by_idxs
  get_batched_nullifier-calm [] = ([], refl, rw filter-none Permᴰ.nil)
  get_batched_nullifier-calm (i ∷ is) = (
    arrange_nullifiers (filter (λ r. member r.idx (i ∷ is)) w.tables.nullifier),
    query-calm w calm (λ t. arrange_nullifiers (filter (λ r. member r.idx (i ∷ is)) t.nullifier)),
    arrange_nullifiers-perm _,
  )

  pub get_len_of_nullifier-calm :
      length w.tables.nullifier < 2 ^ 32
      → get_len_of_nullifier e w ≡ (ok (length w.tables.nullifier), w)
  unfolding get_len_of_nullifier
  get_len_of_nullifier-calm h = rw calm (rw (lt→ltb _ _ h))

  pub count_of_utxo-calm :
      (s : ℕ) → count_of_utxo e s w ≡ (ok (length (filter (in_shard s) w.tables.shards)), w)
  unfolding count_of_utxo
  count_of_utxo-calm s = query-calm w calm (λ t. length (filter (in_shard s) t.shards))

  pub get_total-calm :
      (total : Bytes)
      → w.tables.senders_receivers_total ≡ some total
      → length total ≡ 16
      → get_total_senders_receivers e w ≡ (ok total, w)
  unfolding get_total_senders_receivers
  get_total-calm total stored size = rw calm (rw stored (rw size refl))
