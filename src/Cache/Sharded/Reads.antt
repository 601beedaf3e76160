-- ===== src/Cache/Sharded/Reads.antt =====
-- `batch_get` of `ShardThreadSafeLru` (src/indexer/cache.rs) reads every key as a cache alone does.
use mathlib.Core.List.{Permᴰ}
use mathlib.Core.Path.{subst}
use mathlib.Core.Option.{some-injective}
use manta_indexer.Prelude.{
  ℕ, zero, suc, ◌%◌, ◌<◌, ◌≡◌, refl, sym, ap, ◌∙◌, arith, Option, none, some, List, [], ◌∷◌,
  append-nil, All-zip, map, length, get_elem?, set, replicate, numbered, All, All-perm,
  All-numbered, length-set,
}
use manta_indexer.External.{Bytes, LruCache}
use manta_indexer.Cache.Sharded.{
  Keys, shard_keys, ShardThreadSafeLru, read_keys, read_maps, batch_get,
}
use manta_indexer.Cache.Sharded.Groups.{flat, flat-perm, Own}
use manta_indexer.Cache.Sharded.Fill.{
  shard_keys-flat, key_of, shard_keys-Own, fill, fill-append, fill-numbered, fill-perm,
}

pub get_elem?-some :
    {A : Type 0} (xs : List A) (i : ℕ) → i < length xs → (x : A) × (get_elem? xs i ≡ some x)
get_elem?-some [] i inside = absurd (omega arith)
get_elem?-some (x ∷ xs) zero inside = (x, refl)
get_elem?-some (x ∷ xs) (suc i) inside = get_elem?-some xs i (omega (arith, inside))

module _ (lru : LruCache) where
  -- What the cache at an index has for a key, with no effect on the order of use.
  abbrev pub peek_at : List lru.Cache → ℕ → ℕ → Option Bytes
  peek_at maps i k = elim (get_elem? maps i) [ none ↦ none | some c ↦ lru.peek c k ]

  peek_at-set :
      (maps : List lru.Cache) (i : ℕ) (c c' : lru.Cache)
      → get_elem? maps i ≡ some c
      → ((k : ℕ) → lru.peek c' k ≡ lru.peek c k)
      → (j k : ℕ) → peek_at (set maps i c') j k ≡ peek_at maps j k
  peek_at-set [] i c c' found same j k = refl
  peek_at-set (m ∷ maps) zero c c' found same zero k =
      same k ∙ ap (λ x. lru.peek x k) (sym (some-injective _ _ found))
  peek_at-set (m ∷ maps) zero c c' found same (suc j) k = refl
  peek_at-set (m ∷ maps) (suc i) c c' found same zero k = refl
  peek_at-set (m ∷ maps) (suc i) c c' found same (suc j) k = peek_at-set maps i c c' found same j k

  read_keys-peek :
      (ks : Keys) (c : lru.Cache) (r : List (Option Bytes)) (k : ℕ)
      → lru.peek (read_keys lru ks c r).1 k ≡ lru.peek c k
  unfolding read_keys
  read_keys-peek [] c r k = refl
  read_keys-peek (q ∷ ks) c r k =
      read_keys-peek ks (lru.get c q.1).1 (set r q.0 (lru.get c q.1).0) k ∙ lru.peek-get c q.1 k

  read_keys-fill :
      (look : ℕ → Option Bytes) (ks : Keys) (c : lru.Cache) (r : List (Option Bytes))
      → All (λ (q : ℕ × ℕ). lru.peek c q.1 ≡ look q.1) ks
      → (read_keys lru ks c r).0 ≡ fill look ks r
  unfolding read_keys
  read_keys-fill look [] c r same = refl
  read_keys-fill look (q ∷ ks) c r same =
      read_keys-fill look ks (lru.get c q.1).1 (set r q.0 (lru.get c q.1).0)
        (All-zip (λ p h _. lru.peek-get c q.1 p.1 ∙ h) ks same.1 same.1)
      ∙ ap (λ v. fill look ks (set r q.0 v)) (lru.get-eq-peek c q.1 ∙ same.0)

  read_maps-found :
      (i : ℕ) (ks : Keys) (gs : List (ℕ × Keys)) (maps : List lru.Cache) (r : List (Option Bytes))
      → (c : lru.Cache) → get_elem? maps i ≡ some c
      → read_maps lru ((i, ks) ∷ gs) maps r
        ≡ read_maps lru gs (set maps i (read_keys lru ks c r).1) (read_keys lru ks c r).0
  unfolding read_maps
  read_maps-found i ks gs maps r c found = rw (read_maps, found) refl

  module _ (s : ShardThreadSafeLru lru) where
    -- One cache for each remainder.
    abbrev pub Formed : Type 0
    Formed = (0 < s.shard_num) × (length s.maps ≡ s.shard_num)

    -- Caches of which every one has what it had at first.
    abbrev pub Kept : List lru.Cache → Type 0
    Kept maps = (length maps ≡ s.shard_num) × ((i k : ℕ) → peek_at maps i k ≡ peek_at s.maps i k)

    abbrev pub look : ℕ → Option Bytes
    look k = peek_at s.maps (k % s.shard_num) k

    read_maps-fill :
        (gs : List (ℕ × Keys)) (maps : List lru.Cache) (r : List (Option Bytes))
        → All (Own s.shard_num key_of) gs
        → Kept maps
        → (maps' : List lru.Cache) × (read_maps lru gs maps r ≡ some (fill look (flat gs) r, maps'))
          × Kept maps'
    unfolding read_maps
    read_maps-fill [] maps r own kept = (maps, refl, kept)
    read_maps-fill ((i, ks) ∷ gs) maps r own kept =
        let (c, found) = get_elem?-some maps i (omega (arith, own.0.0, kept.0)) in
        let same : All (λ (q : ℕ × ℕ). lru.peek c q.1 ≡ look q.1) ks =
          All-zip
            (λ q h _.
              sym (
                ap (λ o. elim o as (λ x. Option Bytes) [ none ↦ none | some x ↦ lru.peek x q.1 ])
                  found)
              ∙ kept.1 i q.1
              ∙ ap (λ n. peek_at s.maps n q.1) (sym h))
            ks own.0.1 own.0.1 in
        let c' = (read_keys lru ks c r).1 in
        let (maps', runs, kept') = read_maps-fill gs (set maps i c') (fill look ks r) own.1 (
          length-set maps i c' ∙ kept.0,
          λ j k. peek_at-set maps i c c' found (read_keys-peek ks c r) j k ∙ kept.1 j k,
        ) in
        (
          maps',
          read_maps-found i ks gs maps r c found
              ∙ ap (read_maps lru gs (set maps i c')) (read_keys-fill look ks c r same)
              ∙ runs
              ∙ ap (λ x. some (x, maps')) (sym (fill-append look ks (flat gs) r)),
          kept',
        )

    -- Where there is one cache for each remainder, and however the HashMap is iterated: the call
    -- returns, with the value that the cache of each key's remainder has for it, at the key's position,
    -- a key that occurs again included; and every cache still has what it had.
    pub batch_get-look :
        (order : List (ℕ × Keys) → List (ℕ × Keys)) (keys : List ℕ)
        → ((m : List (ℕ × Keys)) → Permᴰ (order m) m)
        → Formed
        → (maps : List lru.Cache) × (batch_get lru order keys s ≡ some (map look keys, maps))
          × Kept maps
    unfolding batch_get
    batch_get-look order keys order-perm formed =
        let groups = shard_keys s.shard_num (numbered 0 keys) [] in
        let own =
          All-perm _ (order-perm groups)
            (shard_keys-Own s.shard_num (numbered 0 keys) [] formed.0 tt) in
        let (maps, runs, kept) =
          read_maps-fill (order groups) s.maps (replicate (length keys) none) own
            (formed.1, λ i k. refl) in
        let all : Permᴰ (flat (order groups)) (numbered 0 keys) =
          subst (Permᴰ (flat (order groups))) (append-nil (numbered 0 keys)) (
            Permᴰ.trans (flat-perm (order-perm groups))
              (shard_keys-flat s.shard_num (numbered 0 keys) [])) in
        (
          maps,
          runs
              ∙ ap (λ x. some (x, maps))
                  (fill-perm look keys _ all (
                      All-numbered (get_elem? keys) 0 keys
                        (λ j z e. ap (get_elem? keys) (omega arith) ∙ e))
                    ∙ fill-numbered look keys []),
          kept,
        )
