-- ===== src/Pull/Window.antt =====
-- A request for the `m` entries from index `i` on, against the list that is stored: what the cache
-- answers, and what it leaves to the database (`scan_cached`, src/indexer/pull.rs).
use manta_indexer.Prelude.{
  ℕ, zero, suc, ◌+◌, ◌<◌, ◌≡◌, ap, ◌∙◌, Bool, true, false, not, Option, none, some, List, [], ◌∷◌,
  ◌++◌, map, append-nil, take-nil, append_assoc, length, filter, range, numbered, take, get_elem?,
  arith, Option-cases, inl, inr,
}
use manta_indexer.External.{Bytes, External, Codec}
use manta_indexer.Store.{World, ok}
use manta_indexer.Pull.{Scan, scan_cached}

abbrev pub is_cached : (ℕ → Option Bytes) → ℕ → Bool
is_cached p u = elim (p u) [ none ↦ false | some _ ↦ true ]

abbrev pub values : {A : Type 0} → List (ℕ × A) → List A
values = map (λ x. x.1)

-- The part of a numbered list that the cache holds.
abbrev pub hits : {A : Type 0} → (ℕ → Option Bytes) → List (ℕ × A) → List (ℕ × A)
hits p = filter (λ x. is_cached p x.0)

-- The indices of a request that the cache does not hold.
abbrev pub misses : (ℕ → Option Bytes) → ℕ → ℕ → List ℕ
misses p i m = filter (λ u. not (is_cached p u)) (range i m)

abbrev pub Agrees : {A : Type 0} → Codec A → (ℕ → Option Bytes) → ℕ → ℕ → List A → Type 0
Agrees {A} c p i m xs =
    (j : ℕ) (v : Bytes)
    → j < m
    → p (i + j) ≡ some v
    → (x : A) × (get_elem? xs j ≡ some x) × (v ≡ c.encode x)

module _ (e : External) {A : Type 0} (c : Codec A) (p : ℕ → Option Bytes) where
  abbrev after_scan : ℕ → ℕ → List A → Scan A → Scan A
  after_scan i m xs s = record {
    items = s.items ++ values (hits p (numbered i (take m xs)));
    cached_values = s.cached_values + length (hits p (numbered i (take m xs)));
    query_db_indices = s.query_db_indices ++ misses p i m;
  }

  Agrees-tail :
      (i m : ℕ) (x : A) (xs : List A) → Agrees c p i (suc m) (x ∷ xs) → Agrees c p (i + 1) m xs
  Agrees-tail i m x xs h j v lt q = h (suc j) v (omega arith) (ap p (omega arith) ∙ q)

  Agrees-nil : (i m : ℕ) → Agrees c p i (suc m) [] → Agrees c p (i + 1) m []
  Agrees-nil i m h j v lt q = h (suc j) v (omega arith) (ap p (omega arith) ∙ q)

  scan_miss :
      (i : ℕ) (vs : List (Option Bytes)) (is : List ℕ) (s : Scan A) (w : World e)
      → p i ≡ none
      → scan_cached e c.decode (p i ∷ vs) (i ∷ is) s w
        ≡ scan_cached e c.decode vs is
            (record s { query_db_indices = s.query_db_indices ++ i ∷ [] })
            w
  unfolding scan_cached
  scan_miss i vs is s w h = rw (h, scan_cached)

  scan_hit :
      (i : ℕ) (vs : List (Option Bytes)) (is : List ℕ) (x : A) (s : Scan A) (w : World e)
      → p i ≡ some (c.encode x)
      → scan_cached e c.decode (p i ∷ vs) (i ∷ is) s w
        ≡ scan_cached e c.decode vs is
            (record s { items = s.items ++ x ∷ []; cached_values = s.cached_values + 1 })
            w
  unfolding scan_cached
  scan_hit i vs is x s w h = rw (h, scan_cached) (rw (c.decode-encode x))

  scan_none :
      (i : ℕ) (xs : List A) (s : Scan A) (w : World e)
      → scan_cached e c.decode [] [] s w ≡ (ok (after_scan i 0 xs s), w)
  unfolding scan_cached
  scan_none i xs s w = ground (arith, append-nil s.items, append-nil s.query_db_indices)

  first_hit :
      (i m : ℕ) (x : A) (xs : List A) (v : Bytes)
      → Agrees c p i (suc m) (x ∷ xs)
      → p i ≡ some v
      → p i ≡ some (c.encode x)
  first_hit i m x xs v h hit =
      let found = h 0 v (omega arith) (ap p (omega arith) ∙ hit) in ground (arith, found.1, found.2)

  pub scan_cached-eq :
      (i m : ℕ) (xs : List A) (s : Scan A) (w : World e)
      → Agrees c p i m xs
      → scan_cached e c.decode (map p (range i m)) (range i m) s w ≡ (ok (after_scan i m xs s), w)
  scan_cached-eq i zero xs s w h = scan_none i xs s w
  scan_cached-eq i (suc m) [] s w h = elim (Option-cases (p i)) [
    | inl miss ↦
        scan_miss i _ _ s w miss
        ∙ scan_cached-eq (i + 1) m [] _ w (Agrees-nil i m h)
        ∙ ground (
          arith,
          take-nil {A = A} m,
          append_assoc s.query_db_indices (i ∷ []) (misses p (i + 1) m),
        )
    | inr (v, hit) ↦
        (let absent = h 0 v (omega arith) (ap p (omega arith) ∙ hit) in absurd (cc absent.1))
  ]
  scan_cached-eq i (suc m) (x ∷ xs) s w h = elim (Option-cases (p i)) [
    | inl miss ↦
        scan_miss i _ _ s w miss
        ∙ scan_cached-eq (i + 1) m xs _ w (Agrees-tail i m x xs h)
        ∙ ground (arith, append_assoc s.query_db_indices (i ∷ []) (misses p (i + 1) m))
    | inr (v, hit) ↦
        scan_hit i _ _ x s w (first_hit i m x xs v h hit)
        ∙ scan_cached-eq (i + 1) m xs _ w (Agrees-tail i m x xs h)
        ∙ ground
            (arith, append_assoc s.items (x ∷ []) (values (hits p (numbered (i + 1) (take m xs)))))
  ]
