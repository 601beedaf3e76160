-- ===== src/Cache/Laws.antt =====
-- What the batched reads and writes of src/indexer/cache.rs do to any LRU cache, entries evicted
-- at any time included.
use manta_indexer.Prelude.{ℕ, ◌≡◌, refl, sym, ap, ◌∙◌, inl, inr, some, List, [], ◌∷◌, map}
use mathlib.Core.Path.{subst₂, fun_ext}
use mathlib.Core.Option.{some-injective}
use native.Mathlib.Decide.{ℕ_discrete}
use manta_indexer.External.{Bytes, LruCache}
use manta_indexer.Cache.{get_all, put_all}

-- Every entry of a cache satisfies `P`.
abbrev pub Entries : (lru : LruCache) → (ℕ → Bytes → Type 0) → lru.Cache → Type 0
Entries lru P c = (k : ℕ) (v : Bytes) → lru.peek c k ≡ some v → P k v

-- Every pair of a batch satisfies `P`.
abbrev pub Pairs : (ℕ → Bytes → Type 0) → List (ℕ × Bytes) → Type 0
Pairs P [] = Unit
Pairs P (x ∷ xs) = P x.0 x.1 × Pairs P xs

module _ (lru : LruCache) where
  open lru use {peek, get, put, get-eq-peek, peek-get, peek-put_self, peek-put_ne}

  -- Reading a batch hides nothing from a later read.
  pub peek-get_all : (ks : List ℕ) (c : lru.Cache) (j : ℕ) → peek (get_all lru ks c).1 j ≡ peek c j
  unfolding get_all
  peek-get_all [] c j = refl
  peek-get_all (k ∷ ks) c j = peek-get_all ks (get c k).1 j ∙ peek-get c k j

  -- A batch is read as each key alone.
  pub get_all-eq-map : (ks : List ℕ) (c : lru.Cache) → (get_all lru ks c).0 ≡ map (peek c) ks
  unfolding get_all
  get_all-eq-map [] c = refl
  get_all-eq-map (k ∷ ks) c =
      rw (get-eq-peek c k, get_all-eq-map ks (get c k).1, fun_ext (peek-get c k))

  module _ (P : ℕ → Bytes → Type 0) where
    put-Entries :
        (c : lru.Cache) (k : ℕ) (v : Bytes) → Entries lru P c → P k v → Entries lru P (put c k v)
    put-Entries c k v h p j u e = elim (ℕ_discrete j k) [
      | yes same ↦
          subst₂ P (sym same)
            (some-injective _ _ (sym (peek-put_self c k v) ∙ sym (ap (peek (put c k v)) same) ∙ e))
            p
      | no other ↦ elim (peek-put_ne c k j v other) [
        | inl kept ↦ h j u (sym kept ∙ e)
        | inr evicted ↦ absurd (cc (sym evicted ∙ e))
      ]
    ]

    -- A batch of good pairs keeps every entry good.
    pub put_all-Entries :
        (kvs : List (ℕ × Bytes)) (c : lru.Cache)
        → Entries lru P c
        → Pairs P kvs
        → Entries lru P (put_all lru kvs c)
    unfolding put_all
    put_all-Entries [] c h ps = h
    put_all-Entries ((k, v) ∷ kvs) c h ps =
        put_all-Entries kvs (put c k v) (put-Entries c k v h ps.0) ps.1

    pub get_all-Entries :
        (ks : List ℕ) (c : lru.Cache) → Entries lru P c → Entries lru P (get_all lru ks c).1
    get_all-Entries ks c h k v e = h k v (rw (← peek-get_all ks c k) e)
