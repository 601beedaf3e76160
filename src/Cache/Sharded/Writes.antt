-- ===== src/Cache/Sharded/Writes.antt =====
-- `batch_put` of `ShardThreadSafeLru` (src/indexer/cache.rs): every cache gets what is its own.
use mathlib.Core.List.{Permᴰ}
use mathlib.Core.Path.{subst}
use mathlib.Core.Option.{some-injective}
use manta_indexer.Prelude.{
  ℕ, zero, suc, ◌%◌, ◌<◌, ◌≡◌, ◌≢◌, refl, sym, ap, ◌∙◌, arith, some, List, [], ◌∷◌, ◌++◌,
  append-nil, length, get_elem?, set, filter, All, All-perm, length-set, Bool-cases, inl, inr, ◌==◌,
}
use manta_indexer.External.{Bytes, LruCache}
use manta_indexer.Cache.{put_all}
use manta_indexer.Cache.Sharded.{shard_vs, ShardThreadSafeLru, write_maps, batch_put}
use manta_indexer.Cache.Sharded.Groups.{Own, push_entry-Own}
use manta_indexer.Cache.Sharded.Reads.{get_elem?-some, Formed}
use manta_indexer.Sync.{push_entry}
use manta_indexer.Sync.Checkpoints.{DistinctKeys}
use manta_indexer.Sync.Entries.{entry, entry-push_entry, place, push_entry-DistinctKeys}
use manta_indexer.Sync.Maps.{entry_absent, DistinctKeys-perm, entry-perm}

abbrev Pairs : Type 0
Pairs = List (ℕ × Bytes)

abbrev code : ℕ × Bytes → ℕ
code x = x.0

module _ (n : ℕ) where
  -- The pairs of a remainder, in their order.
  abbrev pub of_shard : ℕ → Pairs → Pairs
  of_shard j vs = filter (λ x. x.0 % n == j) vs

  shard_vs-entry :
      (j : ℕ) (vs : Pairs) (m : List (ℕ × Pairs))
      → entry j (shard_vs n vs m) ≡ entry j m ++ of_shard j vs
  unfolding shard_vs
  shard_vs-entry j [] m = sym (append-nil (entry j m))
  shard_vs-entry j (x ∷ vs) m =
      shard_vs-entry j vs (push_entry (x.0 % n) x m)
      ∙ ap (λ p. p ++ of_shard j vs) (entry-push_entry j (x.0 % n) x m)
      ∙ place (x.0 % n == j) x (entry j m) (of_shard j vs)

  shard_vs-DistinctKeys :
      (vs : Pairs) (m : List (ℕ × Pairs)) → DistinctKeys m → DistinctKeys (shard_vs n vs m)
  unfolding shard_vs
  shard_vs-DistinctKeys [] m h = h
  shard_vs-DistinctKeys (x ∷ vs) m h =
      shard_vs-DistinctKeys vs (push_entry (x.0 % n) x m) (push_entry-DistinctKeys (x.0 % n) x m h)

  shard_vs-Own :
      (vs : Pairs) (m : List (ℕ × Pairs))
      → 0 < n
      → All (Own n code) m
      → All (Own n code) (shard_vs n vs m)
  unfolding shard_vs
  shard_vs-Own [] m pos own = own
  shard_vs-Own (x ∷ vs) m pos own =
      shard_vs-Own vs (push_entry (x.0 % n) x m) pos
        (push_entry-Own n code x m (omega (arith, pos)) own)

get_elem?-set_self :
    {A : Type 0} (xs : List A) (i : ℕ) (v x : A)
    → get_elem? xs i ≡ some x
    → get_elem? (set xs i v) i ≡ some v
get_elem?-set_self [] i v x h = absurd (cc h)
get_elem?-set_self (y ∷ xs) zero v x h = refl
get_elem?-set_self (y ∷ xs) (suc i) v x h = get_elem?-set_self xs i v x h

get_elem?-set_ne :
    {A : Type 0} (xs : List A) (i j : ℕ) (v : A) → i ≢ j → get_elem? (set xs i v) j ≡ get_elem? xs j
get_elem?-set_ne [] i j v h = refl
get_elem?-set_ne (x ∷ xs) zero zero v h = absurd (h refl)
get_elem?-set_ne (x ∷ xs) zero (suc j) v h = refl
get_elem?-set_ne (x ∷ xs) (suc i) zero v h = refl
get_elem?-set_ne (x ∷ xs) (suc i) (suc j) v h = get_elem?-set_ne xs i j v (λ e. h (ap suc e))

module _ (lru : LruCache) where
  -- What the caches are after each got its entry of a map.
  abbrev Put : List (ℕ × Pairs) → List lru.Cache → List lru.Cache → Type 0
  Put gs maps maps' =
      (j : ℕ) (c : lru.Cache)
      → get_elem? maps j ≡ some c
      → get_elem? maps' j ≡ some (put_all lru (entry j gs) c)

  write_maps-found :
      (i : ℕ) (vs : Pairs) (gs : List (ℕ × Pairs)) (maps : List lru.Cache) (c : lru.Cache)
      → get_elem? maps i ≡ some c
      → write_maps lru ((i, vs) ∷ gs) maps ≡ write_maps lru gs (set maps i (put_all lru vs c))
  unfolding write_maps
  write_maps-found i vs gs maps c found = rw (write_maps, found) refl

  write_maps-Put :
      (n : ℕ) (gs : List (ℕ × Pairs)) (maps : List lru.Cache)
      → All (Own n code) gs
      → DistinctKeys gs
      → length maps ≡ n
      → (maps' : List lru.Cache) × (write_maps lru gs maps ≡ some maps') × Put gs maps maps'
  unfolding write_maps put_all
  write_maps-Put n [] maps own distinct width = (maps, refl, λ j c h. h)
  write_maps-Put n ((i, vs) ∷ gs) maps own distinct width =
      let (c0, found) = get_elem?-some maps i (omega (arith, own.0.0, width)) in
      let (maps', runs, puts) =
        write_maps-Put n gs (set maps i (put_all lru vs c0)) own.1 distinct.1
          (length-set maps i (put_all lru vs c0) ∙ width) in
      (
        maps',
        write_maps-found i vs gs maps c0 found ∙ runs,
        λ j c h. elim (Bool-cases (i == j)) [
          | inl same ↦
              let here : i ≡ j = ground (arith, same) in
              let alone : entry j gs ≡ [] =
                entry_absent j gs (subst (λ k. All (λ q. q.0 ≢ k) gs) here distinct.0) in
              let own_cache : c0 ≡ c =
                some-injective _ _ (sym found ∙ ap (get_elem? maps) here ∙ h) in
              puts j (put_all lru vs c0) (
                ap (get_elem? (set maps i (put_all lru vs c0))) (sym here)
                ∙ get_elem?-set_self maps i (put_all lru vs c0) c0 found)
              ∙ rw (same, alone, own_cache) refl
          | inr other ↦
              puts j c
                (get_elem?-set_ne maps i j (put_all lru vs c0) (λ q. ground (arith, q, other)) ∙ h)
              ∙ rw other refl
        ],
      )

  -- Where there is one cache for each remainder, and however the HashMap is iterated: the call returns,
  -- and every cache is as after its own pairs alone were put into it, in the order of the batch.
  pub batch_put-puts :
      (s : ShardThreadSafeLru lru) (order : List (ℕ × Pairs) → List (ℕ × Pairs)) (v : Pairs)
      → ((m : List (ℕ × Pairs)) → Permᴰ (order m) m)
      → Formed lru s
      → (maps : List lru.Cache) × (batch_put lru order v s ≡ some maps)
        × ((j : ℕ) (c : lru.Cache)
            → get_elem? s.maps j ≡ some c
            → get_elem? maps j ≡ some (put_all lru (of_shard s.shard_num j v) c))
  unfolding batch_put
  batch_put-puts s order v order-perm formed =
      let groups = shard_vs s.shard_num v [] in
      let distinct = shard_vs-DistinctKeys s.shard_num v [] tt in
      let (maps, runs, puts) =
        write_maps-Put s.shard_num (order groups) s.maps
          (All-perm _ (order-perm groups) (shard_vs-Own s.shard_num v [] formed.0 tt))
          (DistinctKeys-perm (order-perm groups) distinct) formed.1 in
      (
        maps,
        runs,
        λ j c h.
            puts j c h
            ∙ ap (λ vs. some (put_all lru vs c))
                (entry-perm j (order-perm groups) distinct ∙ shard_vs-entry s.shard_num j v []),
      )
