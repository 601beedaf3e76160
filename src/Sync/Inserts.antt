-- ===== src/Sync/Inserts.antt =====
-- The transaction of src/indexer/sync.rs where no statement fails: the rows that it adds.
use manta_indexer.Prelude.{
  ℕ, ◌+◌, ◌^◌, ◌<◌, ◌≤◌, ◌≡◌, refl, sym, ap, ◌∙◌, not, List, [], ◌∷◌, ◌++◌, map, append-nil,
  append_assoc, arith, length, filter, get_or, numbered, numbered-append, map-append, length-append,
  All,
}
use manta_indexer.Words.{add64}
use manta_indexer.External.{Shard, External}
use manta_indexer.Types.{Checkpoint, Receiver, Sender, SenderChunk}
use manta_indexer.Store.{World, ok}
use manta_indexer.Store.Bind.{bind-ok}
use manta_indexer.Store.Calm.{execute-calm}
use manta_indexer.Db.{has_idx, insert_one_shard, insert_one_nullifier}
use manta_indexer.Ledger.{shard_row, nullifier_row}
use manta_indexer.Sync.{Shards, insert_shard, insert_shards, insert_nullifiers}

module _ (e : External) where
  abbrev pub with_shards : World e → List Shard → World e
  with_shards w rows = record w { tables = record w.tables { shards = w.tables.shards ++ rows } }

  abbrev pub with_nullifiers : World e → SenderChunk e → World e
  with_nullifiers w xs = record w {
    tables = record w.tables { nullifier = map (nullifier_row e) (numbered 0 xs) };
  }

  insert_shard-calm :
      (s i : ℕ) (xs : List (Receiver e)) (w : World e)
      → w.faults ≡ []
      → i + length xs < 2 ^ 64
      → insert_shard e s i xs w ≡ (ok tt, with_shards w (map (shard_row e s) (numbered i xs)))
  unfolding insert_shard insert_one_shard
  insert_shard-calm s i [] w calm small =
      ap (λ r. (ok tt, record w { tables = record w.tables { shards = r } }))
        (sym (append-nil w.tables.shards))
  insert_shard-calm s i ((utxo, note) ∷ xs) w calm small =
      let row : Shard = shard_row e s (i, (utxo, note)) in
      let next : add64 i 1 ≡ i + 1 = omega arith in
      bind-ok (insert_one_shard e s i utxo note) (λ _. insert_shard e s (add64 i 1) xs)
        (execute-calm w calm (λ t. record t { shards = t.shards ++ row ∷ [] }))
      ∙ rw next (insert_shard-calm s (i + 1) xs (with_shards w (row ∷ [])) calm (omega arith))
      ∙ ap (λ r. (ok tt, record w { tables = record w.tables { shards = r } }))
          (append_assoc w.tables.shards (row ∷ []) (map (shard_row e s) (numbered (i + 1) xs)))

  -- The rows of a whole map.
  abbrev pub rows_of : Checkpoint → Shards e → List Shard
  rows_of c [] = []
  rows_of c ((s, xs) ∷ m) =
      map (shard_row e s) (numbered (get_or c.receiver_index s 0) xs) ++ rows_of c m

  abbrev pub Small : Checkpoint → Shards e → Type 0
  Small c m = All (λ q. get_or c.receiver_index q.0 0 + length q.1 < 2 ^ 64) m

  pub insert_shards-calm :
      (c : Checkpoint) (m : Shards e) (w : World e)
      → w.faults ≡ []
      → Small c m
      → insert_shards e c m w ≡ (ok tt, with_shards w (rows_of c m))
  unfolding insert_shards
  insert_shards-calm c [] w calm small =
      ap (λ r. (ok tt, record w { tables = record w.tables { shards = r } }))
        (sym (append-nil w.tables.shards))
  insert_shards-calm c ((s, xs) ∷ m) w calm small =
      let i : ℕ = get_or c.receiver_index s 0 in
      bind-ok (insert_shard e s i xs) (λ _. insert_shards e c m)
        (insert_shard-calm s i xs w calm small.0)
      ∙ insert_shards-calm c m (with_shards w (map (shard_row e s) (numbered i xs))) calm small.1
      ∙ ap (λ r. (ok tt, record w { tables = record w.tables { shards = r } }))
          (append_assoc w.tables.shards (map (shard_row e s) (numbered i xs)) (rows_of c m))

  -- No row of a full table has the index after its end.
  none_replaced :
      (n k : ℕ) (xs : SenderChunk e)
      → k + length xs ≤ n
      → filter (λ r. not (has_idx n r)) (map (nullifier_row e) (numbered k xs))
        ≡ map (nullifier_row e) (numbered k xs)
  none_replaced n k [] h = refl
  none_replaced n k (x ∷ xs) h = ground (arith, none_replaced n (k + 1) xs (omega arith), h)

  one_more :
      (ys : SenderChunk e) (x : Sender e) (w : World e)
      → w.tables.nullifier ≡ map (nullifier_row e) (numbered 0 ys)
      → filter (λ r. not (has_idx (length ys) r)) w.tables.nullifier
          ++ nullifier_row e (length ys, x) ∷ []
        ≡ map (nullifier_row e) (numbered 0 (ys ++ x ∷ []))
  one_more ys x w full =
      ap (λ r. filter (λ t. not (has_idx (length ys) t)) r ++ nullifier_row e (length ys, x) ∷ [])
        full
      ∙ ap (λ r. r ++ nullifier_row e (length ys, x) ∷ [])
          (none_replaced (length ys) 0 ys (omega arith))
      ∙ ap (λ n. map (nullifier_row e) (numbered 0 ys) ++ nullifier_row e (n, x) ∷ []) (omega arith)
      ∙ sym (map-append (nullifier_row e) (numbered 0 ys) (numbered (0 + length ys) (x ∷ [])))
      ∙ ap (map (nullifier_row e)) (sym (numbered-append 0 ys (x ∷ [])))

  pub insert_nullifiers-calm :
      (ys xs : SenderChunk e) (w : World e)
      → w.faults ≡ []
      → w.tables.nullifier ≡ map (nullifier_row e) (numbered 0 ys)
      → length ys + length xs < 2 ^ 64
      → insert_nullifiers e (length ys) xs w ≡ (ok tt, with_nullifiers w (ys ++ xs))
  unfolding insert_nullifiers insert_one_nullifier
  insert_nullifiers-calm ys [] w calm full small =
      ap (λ r. (ok tt, record w { tables = record w.tables { nullifier = r } }))
        (full ∙ ap (λ r. map (nullifier_row e) (numbered 0 r)) (sym (append-nil ys)))
  insert_nullifiers-calm ys ((nc, on) ∷ xs) w calm full small =
      let next : add64 (length ys) 1 ≡ length (ys ++ (nc, on) ∷ []) =
        omega (arith, length-append ys ((nc, on) ∷ [])) in
      bind-ok (insert_one_nullifier e (length ys) nc on)
        (λ _. insert_nullifiers e (add64 (length ys) 1) xs)
        (execute-calm w calm (λ t. record t {
          nullifier =
              filter (λ r. not (has_idx (length ys) r)) t.nullifier
              ++ nullifier_row e (length ys, (nc, on)) ∷ [];
        })
          ∙ ap (λ r. (ok tt, record w { tables = record w.tables { nullifier = r } }))
              (one_more ys (nc, on) w full))
      ∙ rw next (
          insert_nullifiers-calm (ys ++ (nc, on) ∷ []) xs (with_nullifiers w (ys ++ (nc, on) ∷ []))
            calm refl (omega (arith, length-append ys ((nc, on) ∷ []))))
      ∙ ap (λ r. (ok tt, with_nullifiers w r)) (append_assoc ys ((nc, on) ∷ []) xs)
