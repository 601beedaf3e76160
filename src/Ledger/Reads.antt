-- ===== src/Ledger/Reads.antt =====
-- What the queries of src/db.rs find in tables that store a ledger.
use manta_indexer.Prelude.{
  ℕ, ◌+◌, ◌≡◌, refl, ap, ◌∙◌, Bool, not, ◌&&◌, Option, List, [], ◌∷◌, map, arith, length, filter,
  member, numbered, in_window, take, drop, ltb, leb, ◌==◌, filter-map, filter-filter, filter_congr,
  filter-window, member-window, length-numbered, length-map,
}
use manta_indexer.External.{Bytes, External}
use manta_indexer.Store.{Tables}
use manta_indexer.Db.{at_index, in_shard, has_idx}
use manta_indexer.Db.Calm.{nonempty}
use manta_indexer.Ledger.{Ledger, Stores, shard_row, nullifier_row}
use manta_indexer.Pull.Window.{is_cached, misses}

-- A numbered list as rows, each with its number as index.
module _ {A Row : Type 0} (mk : ℕ × A → Row) (idx : Row → ℕ)
    (idx-mk : (q : ℕ × A) → idx (mk q) ≡ q.0) where
  nonempty-map : (qs : List (ℕ × A)) → nonempty (map mk qs) ≡ nonempty qs
  nonempty-map [] = refl
  nonempty-map (q ∷ qs) = refl

  nonempty-numbered :
      (k u : ℕ) (xs : List A)
      → nonempty (filter (λ (q : ℕ × A). q.0 == u) (numbered k xs))
        ≡ (leb k u && ltb u (k + length xs))
  nonempty-numbered k u [] = ground arith
  nonempty-numbered k u (x ∷ xs) = ground (arith, nonempty-numbered (k + 1) u xs)

  pub has_row :
      (u : ℕ) (xs : List A)
      → nonempty (filter (λ r. idx r == u) (map mk (numbered 0 xs))) ≡ ltb u (length xs)
  has_row u xs =
      ap nonempty (
        filter-map mk (λ r. idx r == u) (numbered 0 xs)
        ∙ ap (map mk)
            (filter_congr _ (λ q. q.0 == u) (numbered 0 xs) (λ q. ap (λ n. n == u) (idx-mk q))))
      ∙ nonempty-map _
      ∙ nonempty-numbered 0 u xs
      ∙ ground arith

  pub missed_rows :
      (p : ℕ → Option Bytes) (i m : ℕ) (xs : List A)
      → filter (λ r. member (idx r) (misses p i m)) (map mk (numbered 0 xs))
        ≡ map mk (filter (λ q. not (is_cached p q.0)) (numbered i (take m (drop i xs))))
  missed_rows p i m xs =
      filter-map mk (λ r. member (idx r) (misses p i m)) (numbered 0 xs)
      ∙ ap (map mk) (
          filter_congr (λ q. member (idx (mk q)) (misses p i m)) test (numbered 0 xs) same
          ∙ filter-filter (λ q. in_window i m q.0) (λ q. not (is_cached p q.0)) (numbered 0 xs)
          ∙ ap (filter (λ q. not (is_cached p q.0))) (filter-window 0 i m i xs (omega arith)))
    where
      test : ℕ × A → Bool
      test q = in_window i m q.0 && not (is_cached p q.0)

      same : (q : ℕ × A) → member (idx (mk q)) (misses p i m) ≡ test q
      same q =
          ap (λ n. member n (misses p i m)) (idx-mk q)
          ∙ member-window (λ u. not (is_cached p u)) i m q.0

module _ {e : External} {t : Tables} {l : Ledger e} (stores : Stores e t l) where
  -- A shard has an index exactly when its list is longer.
  pub stored_shard :
      (s u : ℕ) → nonempty (filter (at_index s u) t.shards) ≡ ltb u (length (l.shard s))
  stored_shard s u =
      ap nonempty (
        filter-filter (in_shard s) (λ r. r.utxo_index == u) t.shards
        ∙ ap (filter (λ r. r.utxo_index == u)) (stores.shards s))
      ∙ has_row (shard_row e s) (λ r. r.utxo_index) (λ q. refl) u (l.shard s)

  pub stored_nullifier :
      (u : ℕ) → nonempty (filter (has_idx u) t.nullifier) ≡ ltb u (length l.senders)
  stored_nullifier u =
      ap (λ rows. nonempty (filter (has_idx u) rows)) stores.nullifiers
      ∙ has_row (nullifier_row e) (λ r. r.idx) (λ q. refl) u l.senders

  -- The rows for what the cache misses in a window: those of the slice that it does not hold.
  pub missed_shards :
      (s : ℕ) (p : ℕ → Option Bytes) (i m : ℕ)
      → filter (λ r. member r.utxo_index (misses p i m)) (filter (in_shard s) t.shards)
        ≡ map
            (shard_row e s)
            (filter (λ q. not (is_cached p q.0)) (numbered i (take m (drop i (l.shard s)))))
  missed_shards s p i m =
      ap (filter (λ r. member r.utxo_index (misses p i m))) (stores.shards s)
      ∙ missed_rows (shard_row e s) (λ r. r.utxo_index) (λ q. refl) p i m (l.shard s)

  pub missed_nullifiers :
      (p : ℕ → Option Bytes) (i m : ℕ)
      → filter (λ r. member r.idx (misses p i m)) t.nullifier
        ≡ map
            (nullifier_row e)
            (filter (λ q. not (is_cached p q.0)) (numbered i (take m (drop i l.senders))))
  missed_nullifiers p i m =
      ap (filter (λ r. member r.idx (misses p i m))) stores.nullifiers
      ∙ missed_rows (nullifier_row e) (λ r. r.idx) (λ q. refl) p i m l.senders

  pub length-nullifier : length t.nullifier ≡ length l.senders
  length-nullifier =
      ap length stores.nullifiers
      ∙ length-map (nullifier_row e) (numbered 0 l.senders)
      ∙ length-numbered 0 l.senders

  pub length-shard : (s : ℕ) → length (filter (in_shard s) t.shards) ≡ length (l.shard s)
  length-shard s =
      ap length (stores.shards s)
      ∙ length-map (shard_row e s) (numbered 0 (l.shard s))
      ∙ length-numbered 0 (l.shard s)
