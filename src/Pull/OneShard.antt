-- ===== src/Pull/OneShard.antt =====
-- `pull_receivers_for_shard` (src/indexer/pull.rs) in a world that serves a ledger: whatever the
-- cache holds, the answer is the slice of the shard that was asked for.
use mathlib.Core.List.{Permᴰ}
use manta_indexer.Prelude.{
  ℕ, ◌+◌, ◌-◌, ◌%◌, ◌^◌, ◌≤◌, ◌<◌, ◌≡◌, refl, sym, ap, ◌∙◌, Bool, false, not, Option, List, [],
  ◌++◌, map, arith, length, filter, range, numbered, take, drop, ltb, Bool-cases, inl, inr,
  length-map, length-numbered, length-take, length-drop, perm-length, filter-perm, length-append,
  perm-map_inv, All-perm, All-filter, All-slice, All-filter, ◌==◌, if◌then◌else◌,
}
use manta_indexer.External.{Bytes, External}
use manta_indexer.Types.{Receiver, ReceiverChunk}
use manta_indexer.Store.{World, Action, ok, pure, ◌>>=◌}
use manta_indexer.Store.Bind.{bind-ok}
use manta_indexer.Db.{has_shard, get_batched_shards_by_idxs}
use manta_indexer.Db.Calm.{has_shard-calm, get_batched_shards-calm}
use manta_indexer.Cache.{get_all, put_all, put_batch_receiver}
use manta_indexer.Cache.Keys.{receiver_key}
use manta_indexer.Cache.Laws.{get_all-Entries, put_all-Entries}
use manta_indexer.Ledger.{Ledger, Held, Fits, Serves, shard_row}
use manta_indexer.Ledger.Reads.{stored_shard, missed_shards}
use manta_indexer.Pull.ShardSteps.{
  written, peeked, read_shards-eq, get_batch-eq, held-Agrees, write_pairs,
}
use manta_indexer.Pull.{Scan, scan_cached, pull_receivers_for_shard}
use manta_indexer.Pull.Window.{is_cached, values, hits, misses, scan_cached-eq}

module _ (e : External) where
  -- The entries that a request for `m` of a shard from `i` on is about.
  abbrev pub window : Ledger e → ℕ → ℕ → ℕ → List (ℕ × Receiver e)
  window l s i m = numbered i (take m (drop i (l.shard s)))

  -- What the request does: the cached entries come first, in order, then those of the database.
  pub record Pulled (l : Ledger e) (s i m : ℕ) (acc : ReceiverChunk e) (w : World e) : Type 0 where
    pub fetched : List (ℕ × Receiver e)
    pub after : World e
    pub runs : pull_receivers_for_shard e s i m acc w ≡ (
      ok (
        (acc ++ values (hits (peeked e w s) (window l s i m))) ++ values fetched,
        ltb (i + m) (length (l.shard s)),
      ),
      after,
    )
    pub rest : Permᴰ fetched (filter (λ q. not (is_cached (peeked e w s) q.0)) (window l s i m))
    pub tables : after.tables ≡ w.tables
    pub serves : Serves e after l

  module _ (l : Ledger e) (s i m : ℕ) (acc : ReceiverChunk e) (w : World e) (fits : Fits e l)
      (serves : Serves e w l) (shard : s < 256) (range_fits : i + m ≤ 2 ^ 48) where
    abbrev p : ℕ → Option Bytes
    p = peeked e w s

    abbrev slice : List (ℕ × Receiver e)
    slice = window l s i m

    abbrev cached : List (ℕ × Receiver e)
    cached = hits p slice

    abbrev missed : List (ℕ × Receiver e)
    missed = filter (λ q. not (is_cached p q.0)) slice

    abbrev read : World e
    read = record w { cache = (get_all e.lru (map (receiver_key s) (range i m)) w.cache).1 }

    abbrev scanned : Scan (Receiver e)
    scanned = record {
      items = acc ++ values cached;
      cached_values = 0 + length cached;
      query_db_indices = misses p i m;
    }

    scan_step :
        scan_cached e e.receiver.decode
          (map p (range i m))
          (range i m)
          (record { items = acc; cached_values = 0; query_db_indices = [] })
          read
        ≡ (ok scanned, read)
    scan_step =
        scan_cached-eq e e.receiver p i m (drop i (l.shard s)) _ read
          (held-Agrees e l w.cache s i m serves.holds shard range_fits)

    fetch_step :
        (fetched : List (ℕ × Receiver e)) × (get_batched_shards_by_idxs e s (misses p i m) read
          ≡ (ok (map (shard_row e s) fetched), read))
        × Permᴰ fetched missed
    fetch_step =
        let (rows, runs, order) = get_batched_shards-calm e read serves.calm s (misses p i m) in
        let (fetched, image, rest) =
          perm-map_inv (shard_row e s) order missed (missed_shards serves.stores s p i m) in
        (fetched, runs ∙ ap (λ r. (ok r, read)) image, rest)

    abbrev wrote : List (ℕ × Receiver e) → World e
    wrote fetched = record read {
      cache = put_all e.lru (map (λ x. (receiver_key s x.0, x.1)) (written e fetched)) read.cache;
    }

    put_step :
        (fetched : List (ℕ × Receiver e))
        → put_batch_receiver e s (written e fetched) read ≡ (ok tt, wrote fetched)
    unfolding put_batch_receiver
    put_step fetched = refl

    wrote-Serves :
        (fetched : List (ℕ × Receiver e)) → Permᴰ fetched missed → Serves e (wrote fetched) l
    wrote-Serves fetched order = record {
      calm = serves.calm;
      stores = serves.stores;
      holds =
          put_all-Entries e.lru (Held e l) _ read.cache
            (get_all-Entries e.lru (Held e l) _ w.cache serves.holds)
            (write_pairs e l s fetched fits shard
              (All-perm _ order (All-filter _ _ slice (All-slice i m (l.shard s)))));
    }

    -- All were found exactly where the test of the count says so.
    count :
        (fetched : List (ℕ × Receiver e))
        → Permᴰ fetched missed
        → length fetched + length cached ≡ length slice
    count fetched order = omega (
      arith,
      perm-length order,
      perm-length (filter-perm (λ q. is_cached p q.0) slice),
      length-append cached missed,
    )

    has_step :
        (fetched : List (ℕ × Receiver e))
        → has_shard e s (i + m) (wrote fetched)
          ≡ (ok (ltb (i + m) (length (l.shard s))), wrote fetched)
    has_step fetched =
        has_shard-calm e (wrote fetched) serves.calm s (i + m)
        ∙ ap (λ b. (ok b, wrote fetched)) (stored_shard serves.stores s (i + m))

    abbrev all_found : List (ℕ × Receiver e) → Bool
    all_found fetched = length (map (shard_row e s) fetched) + (0 + length cached) == m

    no_more :
        (fetched : List (ℕ × Receiver e))
        → Permᴰ fetched missed
        → all_found fetched ≡ false
        → ltb (i + m) (length (l.shard s)) ≡ false
    no_more fetched order short = ground (
      arith,
      count fetched order,
      length-map (shard_row e s) fetched,
      length-numbered i (take m (drop i (l.shard s))),
      length-take m (drop i (l.shard s)),
      length-drop i (l.shard s),
    )

    abbrev tail_test : List (ℕ × Receiver e) → ReceiverChunk e → Action e (ReceiverChunk e × Bool)
    tail_test fetched items =
        if all_found fetched
        then (do more ← has_shard e s (i + m); pure (items, more))
        else pure (items, false)

    more_step :
        (fetched : List (ℕ × Receiver e)) (items : ReceiverChunk e)
        → Permᴰ fetched missed
        → tail_test fetched items (wrote fetched)
          ≡ (ok (items, ltb (i + m) (length (l.shard s))), wrote fetched)
    more_step fetched items order = elim (Bool-cases (all_found fetched)) [
      | inl full ↦ rw full (bind-ok _ _ (has_step fetched))
      | inr short ↦
          rw short (ap (λ b. (ok (items, b), wrote fetched)) (sym (no_more fetched order short)))
    ]

    pub pull_receivers_for_shard-Pulled : Pulled l s i m acc w
    unfolding pull_receivers_for_shard
    pull_receivers_for_shard-Pulled =
        let (fetched, fetch, order) = fetch_step in
        record {
          fetched = fetched;
          after = wrote fetched;
          runs =
              let e1 : (i + m) % 2 ^ 64 ≡ i + m = omega arith in
              let e2 : i + m - i ≡ m = omega arith in
              rw (e1, e2)
                (bind-ok _ _ (get_batch-eq e s i m w)
                  ∙ bind-ok _ _ scan_step
                  ∙ bind-ok _ _ fetch
                  ∙ bind-ok _ _ (read_shards-eq e s fetched _ read)
                  ∙ bind-ok _ _ (put_step fetched)
                  ∙ more_step fetched _ order);
          rest = order;
          tables = refl;
          serves = wrote-Serves fetched order;
        }
