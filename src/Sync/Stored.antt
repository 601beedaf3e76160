-- ===== src/Sync/Stored.antt =====
-- The tables after a round of src/indexer/sync.rs hold the ledger with the response at its ends.
use manta_indexer.Prelude.{
  ℕ, ◌+◌, ◌<◌, ◌≡◌, ◌≢◌, refl, sym, ap, ap₂, ◌∙◌, false, List, [], ◌∷◌, ◌++◌, map, arith, length,
  filter, filter-append, get_or, numbered, numbered-append, map-append, append-nil, All, ltb,
  Bool-cases, inl, inr, ◌==◌,
}
use manta_indexer.External.{Shard, External}
use manta_indexer.Types.{Checkpoint, Receiver}
use manta_indexer.Db.{in_shard}
use manta_indexer.Ledger.{Ledger, shard_row}
use manta_indexer.Ledger.Growth.{Marks}
use manta_indexer.Sync.{Shards}
use manta_indexer.Sync.Checkpoints.{DistinctKeys}
use manta_indexer.Sync.Entries.{entry}
use manta_indexer.Sync.Maps.{entry_absent}
use manta_indexer.Sync.Inserts.{rows_of}

-- The keys of a map are shard indices.
abbrev pub KeysFit : {A : Type 0} → List (ℕ × A) → Type 0
KeysFit m = All (λ q. q.0 < 256) m

module _ (e : External) where
  rows_of_shard :
      (s : ℕ) (qs : List (ℕ × Receiver e))
      → filter (in_shard s) (map (shard_row e s) qs) ≡ map (shard_row e s) qs
  rows_of_shard s [] = refl
  rows_of_shard s (q ∷ qs) = ground (arith, rows_of_shard s qs)

  rows_of_other :
      (s k : ℕ) (qs : List (ℕ × Receiver e))
      → k ≢ s
      → filter (in_shard s) (map (shard_row e k) qs) ≡ []
  rows_of_other s k [] ne = refl
  rows_of_other s k (q ∷ qs) ne = ground (arith, rows_of_other s k qs ne, ne)

  rows_absent :
      (c : Checkpoint) (s : ℕ) (m : Shards e)
      → All (λ q. q.0 ≢ s) m
      → filter (in_shard s) (rows_of e c m) ≡ []
  rows_absent c s [] h = refl
  rows_absent c s ((k, xs) ∷ m) h =
      filter-append (in_shard s) (map (shard_row e k) (numbered (get_or c.receiver_index k 0) xs))
        (rows_of e c m)
      ∙ ap₂ ◌++◌ (rows_of_other s k _ h.0) (rows_absent c s m h.1)

  -- The rows of a shard among those of a map are its entry's.
  rows_of-entry :
      (c : Checkpoint) (s : ℕ) (m : Shards e)
      → DistinctKeys m
      → filter (in_shard s) (rows_of e c m)
        ≡ map (shard_row e s) (numbered (get_or c.receiver_index s 0) (entry s m))
  rows_of-entry c s [] h = refl
  rows_of-entry c s ((k, xs) ∷ m) h =
      let here : List Shard = map (shard_row e k) (numbered (get_or c.receiver_index k 0) xs) in
      filter-append (in_shard s) here (rows_of e c m) ∙ elim (Bool-cases (k == s)) [
        | inl same ↦
            let q : k ≡ s = ground (arith, same) in
            rw same (
              rw (sym q) (
                ap₂ ◌++◌ (rows_of_shard k (numbered (get_or c.receiver_index k 0) xs))
                  (rows_absent c k m h.0)
                ∙ append-nil here))
        | inr other ↦ rw other (
            ap₂ ◌++◌ (rows_of_other s k _ (λ q. ground (arith, q, other)))
              (rows_of-entry c s m h.1))
      ]

  module _ (l : Ledger e) (c : Checkpoint) (m : Shards e) (distinct : DistinctKeys m)
      (keys : KeysFit m) (marks : Marks e c l) where
    past_keys : (s : ℕ) (k : Shards e) → KeysFit k → ltb s 256 ≡ false → All (λ q. q.0 ≢ s) k
    past_keys s [] h out = tt
    past_keys s (q ∷ k) h out = ((λ p. ground (arith, p, h.0, out)), past_keys s k h.1 out)

    numbered-entry :
        (s : ℕ)
        → numbered (get_or c.receiver_index s 0) (entry s m)
          ≡ numbered (0 + length (l.shard s)) (entry s m)
    numbered-entry s = elim (Bool-cases (ltb s 256)) [
      | inl inside ↦
          ap (λ n. numbered n (entry s m)) (marks.shards s (ground (arith, inside)) ∙ omega arith)
      | inr out ↦ rw (entry_absent s m (past_keys s m keys out)) refl
    ]

    -- The rows of each shard, old and new.
    pub shards-extend :
        (s : ℕ) (rows : List Shard)
        → filter (in_shard s) rows ≡ map (shard_row e s) (numbered 0 (l.shard s))
        → filter (in_shard s) (rows ++ rows_of e c m)
          ≡ map (shard_row e s) (numbered 0 (l.shard s ++ entry s m))
    shards-extend s rows old =
        filter-append (in_shard s) rows (rows_of e c m)
        ∙ ap₂ ◌++◌ old (rows_of-entry c s m distinct ∙ ap (map (shard_row e s)) (numbered-entry s))
        ∙ sym (
            map-append (shard_row e s) (numbered 0 (l.shard s))
              (numbered (0 + length (l.shard s)) (entry s m)))
        ∙ ap (map (shard_row e s)) (sym (numbered-append 0 (l.shard s) (entry s m)))
