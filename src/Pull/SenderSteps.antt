-- ===== src/Pull/SenderSteps.antt =====
-- The steps of `pull_senders` (src/indexer/pull.rs): rows read back, and what the cache holds or is
-- given, for the senders of a ledger.
use mathlib.Core.List.{map-map}
use manta_indexer.Prelude.{
  ℕ, ◌+◌, ◌%◌, ◌^◌, ◌≤◌, ◌≡◌, refl, sym, ap, ◌∙◌, Option, some, List, [], ◌∷◌, ◌++◌, map,
  append_assoc, append-nil, arith, range, drop, get_elem?, get_elem?-drop, get_elem?-lt, All,
}
use manta_indexer.External.{Bytes, External}
use manta_indexer.Types.{Sender}
use manta_indexer.Store.{World, ok}
use manta_indexer.Cache.{get_all, get_batch_sender}
use manta_indexer.Cache.Keys.{sender_key}
use manta_indexer.Cache.Keys.Layout.{sender_key_iff, keys_disjoint}
use manta_indexer.Cache.Laws.{Pairs, get_all-eq-map}
use manta_indexer.Ledger.{Ledger, Held, Holds, Fits, nullifier_row}
use manta_indexer.Pull.{Fetch, read_nullifiers}
use manta_indexer.Pull.Window.{values, Agrees}

module _ (e : External) where
  abbrev pub written : List (ℕ × Sender e) → List (ℕ × Bytes)
  written = map (λ q. (q.0, e.sender.encode q.1))

  abbrev after_row : ℕ × Sender e → Fetch (Sender e) → Fetch (Sender e)
  after_row q f = record f {
    write_back = f.write_back ++ (q.0, e.sender.encode q.1) ∷ [];
    items = f.items ++ q.1 ∷ [];
  }

  -- Rows that store senders are read back as those, and written to the cache as such.
  pub read_nullifiers-eq :
      (qs : List (ℕ × Sender e)) (f : Fetch (Sender e)) (w : World e)
      → read_nullifiers e (map (nullifier_row e) qs) f w
        ≡ (ok (record { write_back = f.write_back ++ written qs; items = f.items ++ values qs }), w)
  unfolding read_nullifiers
  read_nullifiers-eq [] f w = ground (arith, append-nil f.write_back, append-nil f.items)
  read_nullifiers-eq (q ∷ qs) f w =
      rw (e.commitment.decode-encode q.1.0, e.outgoing.decode-encode q.1.1)
        (read_nullifiers-eq qs (after_row q f) w
          ∙ ground (
            arith,
            append_assoc f.write_back (written (q ∷ [])) (written qs),
            append_assoc f.items (q.1 ∷ []) (values qs),
          ))

  abbrev pub peeked : World e → ℕ → Option Bytes
  peeked w u = e.lru.peek w.cache (sender_key u)

  pub get_batch-eq :
      (i m : ℕ) (w : World e)
      → get_batch_sender e (range i m) w ≡ (
        ok (map (peeked w) (range i m)),
        record w { cache = (get_all e.lru (map sender_key (range i m)) w.cache).1 },
      )
  unfolding get_batch_sender
  get_batch-eq i m w =
      ap
        (λ vs. (ok vs, record w { cache = (get_all e.lru (map sender_key (range i m)) w.cache).1 }))
        (get_all-eq-map e.lru (map sender_key (range i m)) w.cache
          ∙ map-map (e.lru.peek w.cache) sender_key (range i m))

  pub held-Agrees :
      (l : Ledger e) (c : e.lru.Cache) (i m : ℕ)
      → Holds e c l
      → i + m ≤ 2 ^ 48
      → Agrees e.sender (λ u. e.lru.peek c (sender_key u)) i m (drop i l.senders)
  held-Agrees l c i m h fits j v below hit =
      let (x, found, encoded) = (h (sender_key (i + j)) v hit).of_sender (i + j) refl in
      let e : (i + j) % 2 ^ 48 ≡ i + j = omega arith in
      (x, get_elem?-drop i j l.senders ∙ sym (ap (get_elem? l.senders) e) ∙ found, encoded)

  -- What stands among the senders may be written to the cache.
  held_write :
      (l : Ledger e) (q : ℕ × Sender e)
      → Fits e l
      → get_elem? l.senders q.0 ≡ some q.1
      → Held e l (sender_key q.0) (e.sender.encode q.1)
  held_write l q fits h = record {
    of_receiver = λ s u lt k. absurd ((keys_disjoint s u q.0).0 (sym k));
    of_sender = λ u k.
        let indices = (sender_key_iff q.0 u).0 k in
        let index : q.0 ≡ u % 2 ^ 48 =
          omega (arith, fits.senders_fit, get_elem?-lt l.senders q.0 q.1 h) in
        (q.1, ap (get_elem? l.senders) (sym index) ∙ h, refl);
  }

  pub write_pairs :
      (l : Ledger e) (qs : List (ℕ × Sender e))
      → Fits e l
      → All (λ q. get_elem? l.senders q.0 ≡ some q.1) qs
      → Pairs (Held e l) (map (λ x. (sender_key x.0, x.1)) (written qs))
  write_pairs l [] fits h = tt
  write_pairs l (q ∷ qs) fits h = (held_write l q fits h.0, write_pairs l qs fits h.1)
