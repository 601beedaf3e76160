-- ===== src/Pull/Senders.antt =====
-- `pull_senders` (src/indexer/pull.rs) in a world that serves a ledger: whatever the cache holds,
-- the answer is the slice of the senders that was asked for.
use mathlib.Core.List.{Permᴰ}
use manta_indexer.Prelude.{
  ℕ, ◌+◌, ◌-◌, ◌%◌, ◌^◌, ◌≤◌, ◌≡◌, refl, ap, ◌∙◌, not, Option, List, [], ◌++◌, map, arith, length,
  filter, range, numbered, take, drop, ltb, perm-map_inv, All-perm, All-filter, All-slice,
  All-filter,
}
use manta_indexer.External.{Bytes, External}
use manta_indexer.Types.{Sender}
use manta_indexer.Store.{World, ok}
use manta_indexer.Store.Bind.{bind-ok}
use manta_indexer.Db.{has_nullifier, get_batched_nullifier_by_idxs}
use manta_indexer.Db.Calm.{has_nullifier-calm, get_batched_nullifier-calm}
use manta_indexer.Cache.{get_all, put_all, put_batch_sender}
use manta_indexer.Cache.Keys.{sender_key}
use manta_indexer.Cache.Laws.{get_all-Entries, put_all-Entries}
use manta_indexer.Ledger.{Ledger, Held, Fits, Serves, nullifier_row}
use manta_indexer.Ledger.Reads.{stored_nullifier, missed_nullifiers}
use manta_indexer.Pull.SenderSteps.{
  written, peeked, read_nullifiers-eq, get_batch-eq, held-Agrees, write_pairs,
}
use manta_indexer.Pull.{Scan, scan_cached, pull_senders}
use manta_indexer.Pull.Window.{is_cached, values, hits, misses, scan_cached-eq}

module _ (e : External) where
  -- The entries that a request for `m` senders from `i` on is about.
  abbrev pub window : Ledger e → ℕ → ℕ → List (ℕ × Sender e)
  window l i m = numbered i (take m (drop i l.senders))

  -- What the request does: the cached entries come first, in order, then those of the database.
  pub record Pulled (l : Ledger e) (i m : ℕ) (w : World e) : Type 0 where
    pub fetched : List (ℕ × Sender e)
    pub after : World e
    pub runs : pull_senders e i m w ≡ (
      ok (
        ltb (i + m) (length l.senders),
        i + m,
        values (hits (peeked e w) (window l i m)) ++ values fetched,
      ),
      after,
    )
    pub rest : Permᴰ fetched (filter (λ q. not (is_cached (peeked e w) q.0)) (window l i m))
    pub tables : after.tables ≡ w.tables
    pub serves : Serves e after l

  module _ (l : Ledger e) (i m : ℕ) (w : World e) (fits : Fits e l) (serves : Serves e w l)
      (range_fits : i + m ≤ 2 ^ 48) where
    abbrev p : ℕ → Option Bytes
    p = peeked e w

    abbrev slice : List (ℕ × Sender e)
    slice = window l i m

    abbrev cached : List (ℕ × Sender e)
    cached = hits p slice

    abbrev missed : List (ℕ × Sender e)
    missed = filter (λ q. not (is_cached p q.0)) slice

    abbrev read : World e
    read = record w { cache = (get_all e.lru (map sender_key (range i m)) w.cache).1 }

    abbrev scanned : Scan (Sender e)
    scanned = record {
      items = values cached;
      cached_values = 0 + length cached;
      query_db_indices = misses p i m;
    }

    scan_step :
        scan_cached e e.sender.decode
          (map p (range i m))
          (range i m)
          (record { items = []; cached_values = 0; query_db_indices = [] })
          read
        ≡ (ok scanned, read)
    scan_step =
        scan_cached-eq e e.sender p i m (drop i l.senders) _ read
          (held-Agrees e l w.cache i m serves.holds range_fits)

    fetch_step :
        (fetched : List (ℕ × Sender e)) × (get_batched_nullifier_by_idxs e (misses p i m) read
          ≡ (ok (map (nullifier_row e) fetched), read))
        × Permᴰ fetched missed
    fetch_step =
        let (rows, runs, order) = get_batched_nullifier-calm e read serves.calm (misses p i m) in
        let (fetched, image, rest) =
          perm-map_inv (nullifier_row e) order missed (missed_nullifiers serves.stores p i m) in
        (fetched, runs ∙ ap (λ r. (ok r, read)) image, rest)

    abbrev wrote : List (ℕ × Sender e) → World e
    wrote fetched = record read {
      cache = put_all e.lru (map (λ x. (sender_key x.0, x.1)) (written e fetched)) read.cache;
    }

    put_step :
        (fetched : List (ℕ × Sender e))
        → put_batch_sender e (written e fetched) read ≡ (ok tt, wrote fetched)
    unfolding put_batch_sender
    put_step fetched = refl

    wrote-Serves :
        (fetched : List (ℕ × Sender e)) → Permᴰ fetched missed → Serves e (wrote fetched) l
    wrote-Serves fetched order = record {
      calm = serves.calm;
      stores = serves.stores;
      holds =
          put_all-Entries e.lru (Held e l) _ read.cache
            (get_all-Entries e.lru (Held e l) _ w.cache serves.holds)
            (write_pairs e l fetched fits
              (All-perm _ order (All-filter _ _ slice (All-slice i m l.senders))));
    }

    has_step :
        (fetched : List (ℕ × Sender e))
        → has_nullifier e (i + m) (wrote fetched)
          ≡ (ok (ltb (i + m) (length l.senders)), wrote fetched)
    has_step fetched =
        has_nullifier-calm e (wrote fetched) serves.calm (i + m)
        ∙ ap (λ b. (ok b, wrote fetched)) (stored_nullifier serves.stores (i + m))

    pub pull_senders-Pulled : Pulled l i m w
    unfolding pull_senders
    pull_senders-Pulled =
        let (fetched, fetch, order) = fetch_step in
        record {
          fetched = fetched;
          after = wrote fetched;
          runs =
              let e1 : (i + m) % 2 ^ 64 ≡ i + m = omega arith in
              let e2 : i + m - i ≡ m = omega arith in
              rw (e1, e2)
                (bind-ok _ _ (get_batch-eq e i m w)
                  ∙ bind-ok _ _ scan_step
                  ∙ bind-ok _ _ fetch
                  ∙ bind-ok _ _ (read_nullifiers-eq e fetched _ read)
                  ∙ bind-ok _ _ (put_step fetched)
                  ∙ bind-ok _ _ (has_step fetched));
          rest = order;
          tables = refl;
          serves = wrote-Serves fetched order;
        }
