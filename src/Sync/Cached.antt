-- ===== src/Sync/Cached.antt =====
-- The cache after a round of src/indexer/sync.rs holds nothing but the grown ledger.
use mathlib.Core.Path.{subst}
use manta_indexer.Prelude.{
  ℕ, ◌+◌, ◌^◌, ◌≤◌, ◌<◌, ◌≡◌, refl, sym, ap, ◌∙◌, some, List, [], ◌∷◌, ◌++◌, map, arith, length,
  get_or, get_elem?, numbered, All, All-numbered, get_elem?-append_right, length-append,
}
use manta_indexer.Words.{add64}
use manta_indexer.External.{External}
use manta_indexer.Types.{Checkpoint, PullResponse}
use manta_indexer.Store.{World, Action, ok, ◌>>◌}
use manta_indexer.Store.Bind.{bind-ok}
use manta_indexer.Cache.{put_batch_receiver, put_batch_sender}
use manta_indexer.Cache.Keys.{receiver_key, sender_key}
use manta_indexer.Cache.Laws.{put_all-Entries}
use manta_indexer.Ledger.{Ledger, Held, Holds, Fits}
use manta_indexer.Pull.ShardSteps
use manta_indexer.Pull.SenderSteps
use manta_indexer.Sync.{Shards, batch_of, cache_shards, cache_response}

module _ (e : External) where
  -- The batch of a shard pairs each receiver with its index.
  batch_of-receivers :
      (i : ℕ) (xs : List (e.Utxo × e.FullIncomingNote))
      → i + length xs < 2 ^ 64
      → batch_of e e.receiver.encode i xs ≡ ShardSteps.written e (numbered i xs)
  batch_of-receivers i [] small = refl
  batch_of-receivers i (x ∷ xs) small =
      let next : add64 i 1 ≡ i + 1 = omega arith in
      rw next (ap (λ r. (i, e.receiver.encode x) ∷ r) (batch_of-receivers (i + 1) xs (omega arith)))

  batch_of-senders :
      (i : ℕ) (xs : List (e.NullifierCommitment × e.OutgoingNote))
      → i + length xs < 2 ^ 64
      → batch_of e e.sender.encode i xs ≡ SenderSteps.written e (numbered i xs)
  batch_of-senders i [] small = refl
  batch_of-senders i (x ∷ xs) small =
      let next : add64 i 1 ≡ i + 1 = omega arith in
      rw next (ap (λ r. (i, e.sender.encode x) ∷ r) (batch_of-senders (i + 1) xs (omega arith)))

  -- What stands at the end of a list stands at its numbers.
  All-ends :
      {A : Type 0} (xs ys : List A)
      → All (λ (q : ℕ × A). get_elem? (xs ++ ys) q.0 ≡ some q.1) (numbered (length xs) ys)
  All-ends xs ys =
      All-numbered (get_elem? (xs ++ ys)) (length xs) ys
        (λ j y h. get_elem?-append_right xs ys j ∙ h)

  -- A write that leaves all but the cache alone.
  pub record Wrote (l : Ledger e) (m : Action e (Unit {0})) (w : World e) : Type 0 where
    pub cache : e.lru.Cache
    pub runs : m w ≡ (ok tt, record w { cache = cache })
    pub holds : Holds e cache l

  Wrote-then :
      (l : Ledger e) (m k : Action e (Unit {0})) (w : World e)
      → (first : Wrote l m w) → Wrote l k (record w { cache = first.cache })
      → Wrote l (m >> k) w
  Wrote-then l m k w first second = record {
    cache = second.cache;
    runs = bind-ok m (λ _. k) first.runs ∙ second.runs;
    holds = second.holds;
  }

  module _ (l : Ledger e) (fits : Fits e l) (c : Checkpoint) where
    -- An entry that stands at the end of its shard, from the checkpoint on.
    abbrev pub Placed : ℕ × List (e.Utxo × e.FullIncomingNote) → Type 0
    Placed q =
        (q.0 < 256)
        × (old : List (e.Utxo × e.FullIncomingNote)) × (l.shard q.0 ≡ old ++ q.1)
        × (get_or c.receiver_index q.0 0 ≡ length old)

    put_batch_receiver-Wrote :
        (q : ℕ × List (e.Utxo × e.FullIncomingNote)) (w : World e)
        → Placed q
        → Holds e w.cache l
        → Wrote l
            (put_batch_receiver e q.0
              (batch_of e e.receiver.encode (get_or c.receiver_index q.0 0) q.1))
            w
    unfolding put_batch_receiver
    put_batch_receiver-Wrote q w (inside, old, whole, start) holds =
        let fits_here : length old + length q.1 ≤ 2 ^ 48 =
          omega (arith, fits.shards_fit q.0, ap length whole, length-append old q.1) in
        let pairs = ShardSteps.write_pairs e l q.0 (numbered (length old) q.1) fits inside (
          subst
            (λ ys.
              All (λ (p : ℕ × (e.Utxo × e.FullIncomingNote)). get_elem? ys p.0 ≡ some p.1)
                (numbered (length old) q.1))
            (sym whole) (All-ends old q.1)) in
        record {
          cache = _;
          runs = refl;
          holds =
              put_all-Entries e.lru (Held e l)
                (map (λ x. (receiver_key q.0 x.0, x.1))
                  (batch_of e e.receiver.encode (get_or c.receiver_index q.0 0) q.1))
                w.cache holds (rw (start, batch_of-receivers (length old) q.1 (omega arith)) pairs);
        }

    cache_shards-Wrote :
        (m : Shards e) (w : World e)
        → All Placed m
        → Holds e w.cache l
        → Wrote l (cache_shards e c m) w
    unfolding cache_shards
    cache_shards-Wrote [] w placed holds = record { cache = w.cache; runs = refl; holds = holds }
    cache_shards-Wrote (q ∷ m) w placed holds =
        let first = put_batch_receiver-Wrote q w placed.0 holds in
        Wrote-then l _ (cache_shards e c m) w first
          (cache_shards-Wrote m (record w { cache = first.cache }) placed.1 first.holds)

    put_batch_sender-Wrote :
        (old new : List (e.NullifierCommitment × e.OutgoingNote)) (w : World e)
        → l.senders ≡ old ++ new
        → Holds e w.cache l
        → Wrote l (put_batch_sender e (batch_of e e.sender.encode (length old) new)) w
    unfolding put_batch_sender
    put_batch_sender-Wrote old new w whole holds =
        let pairs = SenderSteps.write_pairs e l (numbered (length old) new) fits (
          subst
            (λ ys.
              All
                (λ (p : ℕ × (e.NullifierCommitment × e.OutgoingNote)). get_elem? ys p.0 ≡ some p.1)
                (numbered (length old) new))
            (sym whole) (All-ends old new)) in
        record {
          cache = _;
          runs = refl;
          holds =
              put_all-Entries e.lru (Held e l)
                (map (λ x. (sender_key x.0, x.1)) (batch_of e e.sender.encode (length old) new))
                w.cache holds
                (rw
                  (batch_of-senders (length old) new
                    (omega (arith, fits.senders_fit, ap length whole, length-append old new)))
                  pairs);
        }

    -- Refreshing the cache after a response that stands at the ends of the ledger.
    pub cache_response-Wrote :
        (r : PullResponse e) (shards : Shards e)
        → (old : List (e.NullifierCommitment × e.OutgoingNote)) (w : World e)
        → All Placed (e.iterate shards)
        → l.senders ≡ old ++ r.senders
        → Holds e w.cache l
        → Wrote l (cache_response e c (length old) r shards) w
    unfolding cache_response
    cache_response-Wrote r shards old w placed whole holds =
        let first = cache_shards-Wrote (e.iterate shards) w placed holds in
        Wrote-then l (cache_shards e c (e.iterate shards)) _ w first (
          put_batch_sender-Wrote old r.senders (record w { cache = first.cache }) whole first.holds)
