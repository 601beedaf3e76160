-- ===== src/Pull/ShardSteps.antt =====
-- The steps of `pull_receivers_for_shard` (src/indexer/pull.rs): rows read back, and what the cache
-- holds or is given, for one shard of a ledger.
use mathlib.Core.List.{map-map}
use manta_indexer.Prelude.{
  ℕ, ◌+◌, ◌%◌, ◌^◌, ◌≤◌, ◌<◌, ◌≡◌, refl, sym, ap, ◌∙◌, Option, some, List, [], ◌∷◌, ◌++◌, map,
  append_assoc, append-nil, arith, range, drop, get_elem?, get_elem?-drop, get_elem?-lt, ap₂, All,
}
use manta_indexer.External.{Bytes, External}
use manta_indexer.Types.{Receiver}
use manta_indexer.Store.{World, ok}
use manta_indexer.Cache.{get_all, get_batch_shard_receiver}
use manta_indexer.Cache.Keys.{receiver_key}
use manta_indexer.Cache.Keys.Layout.{receiver_key_iff, keys_disjoint}
use manta_indexer.Cache.Laws.{Pairs, get_all-eq-map}
use manta_indexer.Ledger.{Ledger, Held, Holds, Fits, shard_row}
use manta_indexer.Pull.{Fetch, read_shards}
use manta_indexer.Pull.Window.{values, Agrees}

module _ (e : External) where
  abbrev pub written : List (ℕ × Receiver e) → List (ℕ × Bytes)
  written = map (λ q. (q.0, e.receiver.encode q.1))

  abbrev after_row : ℕ × Receiver e → Fetch (Receiver e) → Fetch (Receiver e)
  after_row q f = record f {
    write_back = f.write_back ++ (q.0, e.receiver.encode q.1) ∷ [];
    items = f.items ++ q.1 ∷ [];
  }

  -- Rows that store receivers are read back as those, and written to the cache as such.
  pub read_shards-eq :
      (s : ℕ) (qs : List (ℕ × Receiver e)) (f : Fetch (Receiver e)) (w : World e)
      → read_shards e (map (shard_row e s) qs) f w
        ≡ (ok (record { write_back = f.write_back ++ written qs; items = f.items ++ values qs }), w)
  unfolding read_shards
  read_shards-eq s [] f w = ground (arith, append-nil f.write_back, append-nil f.items)
  read_shards-eq s (q ∷ qs) f w =
      rw (e.utxo.decode-encode q.1.0, e.note.decode-encode q.1.1)
        (read_shards-eq s qs (after_row q f) w
          ∙ ground (
            arith,
            append_assoc f.write_back (written (q ∷ [])) (written qs),
            append_assoc f.items (q.1 ∷ []) (values qs),
          ))

  abbrev pub peeked : World e → ℕ → ℕ → Option Bytes
  peeked w s u = e.lru.peek w.cache (receiver_key s u)

  pub get_batch-eq :
      (s i m : ℕ) (w : World e)
      → get_batch_shard_receiver e s (range i m) w ≡ (
        ok (map (peeked w s) (range i m)),
        record w { cache = (get_all e.lru (map (receiver_key s) (range i m)) w.cache).1 },
      )
  unfolding get_batch_shard_receiver
  get_batch-eq s i m w =
      ap
        (λ vs. (
          ok vs,
          record w { cache = (get_all e.lru (map (receiver_key s) (range i m)) w.cache).1 },
        ))
        (get_all-eq-map e.lru (map (receiver_key s) (range i m)) w.cache
          ∙ map-map (e.lru.peek w.cache) (receiver_key s) (range i m))

  pub held-Agrees :
      (l : Ledger e) (c : e.lru.Cache) (s i m : ℕ)
      → Holds e c l
      → s < 256
      → i + m ≤ 2 ^ 48
      → Agrees e.receiver (λ u. e.lru.peek c (receiver_key s u)) i m (drop i (l.shard s))
  held-Agrees l c s i m h lt fits j v below hit =
      let (x, found, encoded) = (h (receiver_key s (i + j)) v hit).of_receiver s (i + j) lt refl in
      let e : (i + j) % 2 ^ 48 ≡ i + j = omega arith in
      (x, get_elem?-drop i j (l.shard s) ∙ sym (ap (get_elem? (l.shard s)) e) ∙ found, encoded)

  -- What stands in a shard may be written to the cache.
  held_write :
      (l : Ledger e) (s : ℕ) (q : ℕ × Receiver e)
      → Fits e l
      → s < 256
      → get_elem? (l.shard s) q.0 ≡ some q.1
      → Held e l (receiver_key s q.0) (e.receiver.encode q.1)
  held_write l s q fits lt h = record {
    of_receiver = λ s' u lt' k.
        let (shards, indices) = (receiver_key_iff s s' q.0 u).0 k in
        let same : s ≡ s' = omega arith in
        let index : q.0 ≡ u % 2 ^ 48 =
          omega (arith, fits.shards_fit s, get_elem?-lt (l.shard s) q.0 q.1 h) in
        (q.1, ap₂ (λ a b. get_elem? (l.shard a) b) (sym same) (sym index) ∙ h, refl);
    of_sender = λ u k. absurd ((keys_disjoint s q.0 u).0 k);
  }

  pub write_pairs :
      (l : Ledger e) (s : ℕ) (qs : List (ℕ × Receiver e))
      → Fits e l
      → s < 256
      → All (λ q. get_elem? (l.shard s) q.0 ≡ some q.1) qs
      → Pairs (Held e l) (map (λ x. (receiver_key s x.0, x.1)) (written qs))
  write_pairs l s [] fits lt h = tt
  write_pairs l s (q ∷ qs) fits lt h =
      (held_write l s q fits lt h.0, write_pairs l s qs fits lt h.1)
