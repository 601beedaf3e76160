-- ===== src/Sync/Rounds.antt =====
-- A round of src/indexer/sync.rs where no statement fails: the response is appended to the ledger.
use mathlib.Core.Path.{subst, fun_ext}
use manta_indexer.Prelude.{
  ℕ, ◌+◌, ◌^◌, ◌<◌, ◌≡◌, refl, sym, ap, ◌∙◌, Bool, true, false, some, List, [], ◌++◌, arith, length,
  min, filter, length-append, All, All-perm, All-zip, inl, inr, if◌then◌else◌,
}
use manta_indexer.External.{External}
use manta_indexer.Types.{Checkpoint, Receiver, PullResponse}
use manta_indexer.Store.{World, or_raise, json_rpsee, ok, pure}
use manta_indexer.Store.Bind.{bind-ok}
use manta_indexer.Ledger.{Ledger, Fits, Serves}
use manta_indexer.Ledger.Growth.{extend, Marks, Holds-extend}
use manta_indexer.Sync.{
  Node, Shards, reconstruct_shards_from_pull_response, synchronize_ledger, cache_response,
  increasing_checkpoint, sync_round, max_senders, max_receivers,
}
use manta_indexer.Sync.Checkpoints.{DistinctKeys}
use manta_indexer.Sync.Entries.{entry, belongs, stray, reconstruct_shards-entries}
use manta_indexer.Sync.Maps.{
  DistinctKeys-perm, entry-perm, entries_own, get_or-increase_receivers, length-increase_receivers,
}
use manta_indexer.Sync.Inserts.{Small}
use manta_indexer.Sync.Commits.{stored, store_response-calm}
use manta_indexer.Sync.Stored.{KeysFit, shards-extend}
use manta_indexer.Sync.Keys.{reconstruct_shards-KeysFit}
use manta_indexer.Sync.Cached.{Wrote, Placed, cache_response-Wrote}

module _ (e : External) where
  -- The ledger with a response at its ends.
  abbrev pub grown : Ledger e → PullResponse e → Ledger e
  grown l r = extend e l (λ s. filter (belongs e s) r.receivers) r.senders

  module _ (l : Ledger e) (c : Checkpoint) (r : PullResponse e) (shards : Shards e) (w : World e)
      (serves : Serves e w l) (marks : Marks e c l) (distinct' : DistinctKeys shards)
      (keys' : KeysFit shards) where
    abbrev m : Shards e
    m = e.iterate shards

    abbrev after : Ledger e
    after = extend e l (λ s. entry s m) r.senders

    module _ (fits : Fits e after) where
      distinct : DistinctKeys m
      distinct = DistinctKeys-perm (e.iterate-perm shards) distinct'

      keys : KeysFit m
      keys = All-perm _ (e.iterate-perm shards) keys'

      placed : All (Placed e after fits c) m
      placed =
          All-zip
            (λ q inside own.
              (inside, l.shard q.0, ap (λ xs. l.shard q.0 ++ xs) own, marks.shards q.0 inside))
            m keys (entries_own m distinct)

      small : Small e c m
      small =
          All-zip
            (λ q inside p.
              omega (arith, p.3, fits.shards_fit q.0, ap length p.2, length-append p.1 q.1))
            m keys placed

      senders_room : length l.senders + length r.senders < 2 ^ 32
      senders_room = omega (arith, fits.senders_fit, length-append l.senders r.senders)

      abbrev committed : World e
      committed =
          stored e c r shards l.senders w serves.calm serves.stores.nullifiers
            (omega (arith, senders_room)) small (omega (arith, senders_room))

      committed-Serves : Serves e committed after
      committed-Serves = record {
        calm = serves.calm;
        stores = record {
          shards = λ s.
              shards-extend e l c m distinct keys marks s w.tables.shards (serves.stores.shards s);
          nullifiers = refl;
        };
        holds = Holds-extend e l (λ s. entry s m) r.senders w.cache serves.holds;
      }

      -- The refresh of the cache, made or not.
      refresh_Wrote :
          (refresh_cache : Bool)
          → Wrote e after
              (if refresh_cache then cache_response e c (length l.senders) r shards else pure tt)
              committed
      refresh_Wrote true =
          cache_response-Wrote e after fits c r shards l.senders committed placed refl
            committed-Serves.holds
      refresh_Wrote false = record { cache = w.cache; runs = refl; holds = committed-Serves.holds }

      abbrev next : Checkpoint
      next = increasing_checkpoint c (length r.senders) m

      next-Marks : Marks e next after
      unfolding increasing_checkpoint
      next-Marks = record {
        width = length-increase_receivers m c.receiver_index ∙ marks.width;
        shards = λ s inside.
            get_or-increase_receivers m c.receiver_index s distinct
              (subst (λ n. All (λ (q : ℕ × List (Receiver e)). q.0 < n) m) (sym marks.width) keys)
              (omega (
                arith,
                marks.shards s inside,
                fits.shards_fit s,
                length-append (l.shard s) (entry s m),
              ))
            ∙ omega (arith, marks.shards s inside, length-append (l.shard s) (entry s m));
        senders = omega (arith, marks.senders, senders_room, length-append l.senders r.senders);
      }

      round_Serves :
          (refresh_cache : Bool)
          → Serves e (record committed { cache = (refresh_Wrote refresh_cache).cache }) after
      round_Serves refresh_cache = record {
        calm = serves.calm;
        stores = committed-Serves.stores;
        holds = (refresh_Wrote refresh_cache).holds;
      }

      -- The round, once the request and the map are made.
      round_runs :
          (ws : Node e) (n : ℕ) (max_count : ℕ × ℕ) (refresh_cache : Bool)
          → ws n c (min max_count.0 max_senders) (min max_count.1 max_receivers) ≡ some r
          → reconstruct_shards_from_pull_response e r w ≡ (ok shards, w)
          → sync_round e ws n max_count refresh_cache c w ≡ (
            ok (next, r.should_continue),
            record committed { cache = (refresh_Wrote refresh_cache).cache },
          )
      unfolding sync_round synchronize_ledger
      round_runs ws n max_count refresh_cache replied mapped =
          bind-ok _ _ (ap (λ o. or_raise o json_rpsee w) replied)
          ∙ bind-ok _ _ mapped
          ∙ bind-ok _ _ (
              store_response-calm e c r shards l.senders w serves.calm serves.stores.nullifiers
                (omega (arith, senders_room)) small (omega (arith, senders_room)))
          ∙ bind-ok _ _ (refresh_Wrote refresh_cache).runs

  -- In a world that serves a ledger, from the checkpoint of that ledger, where the node replies with
  -- receivers that all belong to a shard and the grown ledger fits: the round succeeds; afterwards the
  -- world serves the ledger with the response's receivers at the ends of their shards, in the order of
  -- the response, and its senders at the end, whether or not the cache is refreshed and in whatever
  -- order the map is iterated; the new checkpoint is that of the grown ledger; and the stored total is
  -- the response's.
  pub sync_round-extends :
      (ws : Node e) (n : ℕ) (max_count : ℕ × ℕ) (refresh_cache : Bool) (c : Checkpoint)
      → (l : Ledger e) (r : PullResponse e) (w : World e) → Serves e w l
      → Marks e c l
      → Fits e (grown l r)
      → ws n c (min max_count.0 max_senders) (min max_count.1 max_receivers) ≡ some r
      → filter (stray e) r.receivers ≡ []
      → (c' : Checkpoint) × (w' : World e) × (sync_round e ws n max_count refresh_cache c w
          ≡ (ok (c', r.should_continue), w'))
        × Marks e c' (grown l r)
        × Serves e w' (grown l r)
        × (w'.tables.senders_receivers_total ≡ some r.senders_receivers_total)
  sync_round-extends ws n max_count refresh_cache c l r w serves marks fits replied whole =
      elim (reconstruct_shards-entries e r w) [
        | inr (_, bad) ↦ absurd (bad whole)
        | inl (shards, mapped, entries, distinct) ↦
            let keys = reconstruct_shards-KeysFit e r shards w mapped in
            let same : extend e l (λ s. entry s (e.iterate shards)) r.senders ≡ grown l r =
              ap (λ f. extend e l f r.senders)
                (fun_ext (λ s. entry-perm s (e.iterate-perm shards) distinct ∙ entries s)) in
            let fits' = subst (Fits e) (sym same) fits in
            (
              next l c r shards w serves marks distinct keys fits',
              _,
              round_runs l c r shards w serves marks distinct keys fits' ws n max_count
                  refresh_cache replied mapped,
              subst (Marks e _) same (next-Marks l c r shards w serves marks distinct keys fits'),
              subst (Serves e _) same
                  (round_Serves l c r shards w serves marks distinct keys fits' refresh_cache),
              refl,
            )
      ]
