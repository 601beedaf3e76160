-- ===== src/Sync/Maps.antt =====
-- The map of shards that src/indexer/sync.rs iterates: its entries in any order hold the same, and
-- `increasing_checkpoint` adds their lengths.
use mathlib.Core.List.{Permᴰ}
use mathlib.Core.Path.{subst}
use manta_indexer.Prelude.{
  ℕ, ◌+◌, ◌^◌, ◌<◌, ◌≡◌, ◌≢◌, refl, sym, ap, ap₂, ◌∙◌, arith, List, [], ◌∷◌, length, set, get_or,
  length-set, get_or-set_self, get_or-set_ne, All, All-perm, All-zip, Bool-cases, inl, inr, ◌==◌,
  if◌then◌else◌,
}
use manta_indexer.Words.{add64}
use manta_indexer.Types.{ReceiverIndexArray}
use manta_indexer.Sync.{increase_receivers}
use manta_indexer.Sync.Checkpoints.{DistinctKeys}
use manta_indexer.Sync.Entries.{entry}

module _ {A : Type 0} where
  pub entry_absent : (s : ℕ) (m : List (ℕ × List A)) → All (λ q. q.0 ≢ s) m → entry s m ≡ []
  entry_absent s [] h = refl
  entry_absent s ((k, xs) ∷ m) h = ground (arith, h.0, entry_absent s m h.1)

  pub DistinctKeys-perm : {m m' : List (ℕ × List A)} → Permᴰ m m' → DistinctKeys m' → DistinctKeys m
  DistinctKeys-perm Permᴰ.nil h = tt
  DistinctKeys-perm (Permᴰ.cons {l₁ = l1} q p) h = (
    subst (λ x. All {A = ℕ × List A} (λ r. r.0 ≢ x.0) l1) (sym q) (All-perm _ p h.0),
    DistinctKeys-perm p h.1,
  )
  DistinctKeys-perm (Permᴰ.swap {l = l} q q') h = (
    (
      λ r. h.0.0 (sym (ap (λ x. x.0) q) ∙ sym r ∙ ap (λ x. x.0) q'),
      subst (λ x. All {A = ℕ × List A} (λ r. r.0 ≢ x.0) l) (sym q) h.1.0,
    ),
    (subst (λ x. All {A = ℕ × List A} (λ r. r.0 ≢ x.0) l) (sym q') h.0.1, h.1.1),
  )
  DistinctKeys-perm (Permᴰ.trans p q) h = DistinctKeys-perm p (DistinctKeys-perm q h)

  entry_swap :
      (s : ℕ) (a b : ℕ × List A) (m : List (ℕ × List A))
      → b.0 ≢ a.0
      → entry s (b ∷ a ∷ m) ≡ entry s (a ∷ b ∷ m)
  entry_swap s a b m ne = ground (arith, ne)

  pub entry-perm :
      (s : ℕ) {m m' : List (ℕ × List A)} → Permᴰ m m' → DistinctKeys m' → entry s m ≡ entry s m'
  entry-perm s Permᴰ.nil h = refl
  entry-perm s (Permᴰ.cons q p) h =
      ap₂ (λ x ys. if x.0 == s then x.1 else ys) q (entry-perm s p h.1)
  entry-perm s (Permᴰ.swap {l = l} q q') h =
      ap₂ (λ x y. entry s (x ∷ y ∷ l)) q q' ∙ entry_swap s _ _ l h.0.0
  entry-perm s (Permᴰ.trans p q) h = entry-perm s p (DistinctKeys-perm q h) ∙ entry-perm s q h

  -- An index after the map is the one before it and the length of the shard's entry.
  pub get_or-increase_receivers :
      (m : List (ℕ × List A)) (indices : ReceiverIndexArray) (s : ℕ)
      → DistinctKeys m
      → All (λ q. q.0 < length indices) m
      → get_or indices s 0 + length (entry s m) < 2 ^ 64
      → get_or (increase_receivers m indices) s 0 ≡ get_or indices s 0 + length (entry s m)
  unfolding increase_receivers
  get_or-increase_receivers [] indices s distinct fits small = omega arith
  get_or-increase_receivers ((k, xs) ∷ m) indices s distinct fits small =
      let v : ℕ = add64 (get_or indices k 0) (length xs) in
      let width : length (set indices k v) ≡ length indices = length-set indices k v in
      let fits' = subst (λ n. All {A = ℕ × List A} (λ q. q.0 < n) m) (sym width) fits.1 in
      let ih = get_or-increase_receivers m (set indices k v) s distinct.1 fits' in
      elim (Bool-cases (k == s)) [
        | inl same ↦
            let here : k ≡ s = ground (arith, same) in
            let gone : entry s m ≡ [] =
              subst (λ t. entry t m ≡ []) here (entry_absent k m distinct.0) in
            let wrote : get_or (set indices k v) k 0 ≡ v = get_or-set_self indices k v 0 fits.0 in
            ground (arith, ih (ground (arith, here, gone, wrote, small)), here, gone, wrote, small)
        | inr other ↦
            let kept : get_or (set indices k v) s 0 ≡ get_or indices s 0 =
              get_or-set_ne indices k s v 0 (λ q. ground (arith, q, other)) in
            ground (arith, ih (ground (arith, kept, other, small)), kept, other)
      ]

  pub length-increase_receivers :
      (m : List (ℕ × List A)) (indices : ReceiverIndexArray)
      → length (increase_receivers m indices) ≡ length indices
  unfolding increase_receivers
  length-increase_receivers [] indices = refl
  length-increase_receivers ((k, xs) ∷ m) indices =
      length-increase_receivers m _ ∙ length-set indices k _

  -- Every pair of a map is the entry of its key.
  pub entries_own : (m : List (ℕ × List A)) → DistinctKeys m → All (λ q. entry q.0 m ≡ q.1) m
  entries_own [] h = tt
  entries_own ((k, xs) ∷ m) h =
      (ground arith, All-zip (λ q own other. ground (arith, own, other)) m (entries_own m h.1) h.0)
