-- ===== src/Cache/Sharded/Fill.antt =====
-- The keys that `batch_get` of `ShardThreadSafeLru` (src/indexer/cache.rs) groups, with the positions
-- at which their values are written.
use mathlib.Core.List.{Permᴰ}
use mathlib.Core.List.Permᴰ
use native.Mathlib.Decide.{ℕ_discrete}
use mathlib.Core.Option.{some-injective}
use manta_indexer.Prelude.{
  ℕ, zero, suc, ◌+◌, ◌%◌, ◌<◌, ◌≡◌, ◌≢◌, refl, sym, ap, ap₂, ◌∙◌, arith, Option, none, some, List,
  [], ◌∷◌, ◌++◌, append_assoc, map, length, length-append, get_elem?, set, replicate, numbered, All,
  All-perm,
}
use manta_indexer.External.{Bytes}
use manta_indexer.Cache.Sharded.{Keys, shard_keys}
use manta_indexer.Cache.Sharded.Groups.{flat, flat-push_entry, Own, push_entry-Own}
use manta_indexer.Sync.{push_entry}

-- The pairs of a list of keys and positions, as they are grouped.
pub shard_keys-flat :
    (n : ℕ) (ks : Keys) (m : List (ℕ × Keys)) → Permᴰ (flat (shard_keys n ks m)) (ks ++ flat m)
unfolding shard_keys
shard_keys-flat n [] m = Permᴰ.refl (flat m)
shard_keys-flat n (q ∷ ks) m = Permᴰ.trans (shard_keys-flat n ks (push_entry (q.1 % n) q m)) (
    Permᴰ.trans (Permᴰ.append_left ks (flat-push_entry (q.1 % n) q m)) (Permᴰ.middle q ks (flat m)))

abbrev pub key_of : ℕ × ℕ → ℕ
key_of q = q.1

pub shard_keys-Own :
    (n : ℕ) (ks : Keys) (m : List (ℕ × Keys))
    → 0 < n
    → All (Own n key_of) m
    → All (Own n key_of) (shard_keys n ks m)
unfolding shard_keys
shard_keys-Own n [] m pos own = own
shard_keys-Own n (q ∷ ks) m pos own =
    shard_keys-Own n ks (push_entry (q.1 % n) q m) pos
      (push_entry-Own n key_of q m (omega (arith, pos)) own)

module _ {A : Type 0} where
  set_twice : (xs : List A) (i : ℕ) (v : A) → set (set xs i v) i v ≡ set xs i v
  set_twice [] i v = refl
  set_twice (x ∷ xs) zero v = refl
  set_twice (x ∷ xs) (suc i) v = ap (λ ys. x ∷ ys) (set_twice xs i v)

  set_comm : (xs : List A) (i j : ℕ) (v u : A) → i ≢ j → set (set xs i v) j u ≡ set (set xs j u) i v
  set_comm [] i j v u ne = refl
  set_comm (x ∷ xs) zero zero v u ne = absurd (ne refl)
  set_comm (x ∷ xs) zero (suc j) v u ne = refl
  set_comm (x ∷ xs) (suc i) zero v u ne = refl
  set_comm (x ∷ xs) (suc i) (suc j) v u ne =
      ap (λ ys. x ∷ ys) (set_comm xs i j v u (λ q. ne (ap suc q)))

  set-append : (xs ys : List A) (v : A) → set (xs ++ ys) (length xs) v ≡ xs ++ set ys 0 v
  set-append [] ys v = refl
  set-append (x ∷ xs) ys v = ap (λ zs. x ∷ zs) (set-append xs ys v)

-- Writing what each key reads at its position.
module _ (look : ℕ → Option Bytes) where
  abbrev pub fill : Keys → List (Option Bytes) → List (Option Bytes)
  fill [] r = r
  fill (q ∷ ks) r = fill ks (set r q.0 (look q.1))

  pub fill-append :
      (ks js : Keys) (r : List (Option Bytes)) → fill (ks ++ js) r ≡ fill js (fill ks r)
  fill-append [] js r = refl
  fill-append (q ∷ ks) js r = fill-append ks js (set r q.0 (look q.1))

  -- In order, from a list of that length on.
  pub fill-numbered :
      (ks : List ℕ) (pre : List (Option Bytes))
      → fill (numbered (length pre) ks) (pre ++ replicate (length ks) none) ≡ pre ++ map look ks
  fill-numbered [] pre = refl
  fill-numbered (k ∷ ks) pre =
      let here = pre ++ look k ∷ [] in
      ap (fill (numbered (length pre + 1) ks)) (
        set-append pre (none ∷ replicate (length ks) none) (look k)
        ∙ sym (append_assoc pre (look k ∷ []) (replicate (length ks) none)))
      ∙ ap (λ n. fill (numbered n ks) (here ++ replicate (length ks) none))
          (sym (length-append pre (look k ∷ [])))
      ∙ fill-numbered ks here
      ∙ append_assoc pre (look k ∷ []) (map look ks)

  module _ (keys : List ℕ) where
    -- The key that stands at a position.
    abbrev Right : ℕ × ℕ → Type 0
    Right q = get_elem? keys q.0 ≡ some q.1

    fill_swap :
        (p q : ℕ × ℕ) (r : List (Option Bytes))
        → Right p
        → Right q
        → set (set r p.0 (look p.1)) q.0 (look q.1) ≡ set (set r q.0 (look q.1)) p.0 (look p.1)
    fill_swap (i, k) (j, l) r right right' = elim (ℕ_discrete i j) [
      | yes same ↦
          let one : k ≡ l = some-injective _ _ (sym right ∙ ap (get_elem? keys) same ∙ right') in
          rw (same, one) refl
      | no other ↦ set_comm r i j (look k) (look l) other
    ]

    pub fill-perm :
        {ps qs : Keys} (r : List (Option Bytes))
        → Permᴰ ps qs
        → All Right qs
        → fill ps r ≡ fill qs r
    fill-perm r Permᴰ.nil right = refl
    fill-perm r (Permᴰ.cons {b = b} {l₁ = l1} q p) right =
        ap (λ (x : ℕ × ℕ). fill (x ∷ l1) r) q ∙ fill-perm (set r b.0 (look b.1)) p right.1
    fill-perm r (Permᴰ.swap {a' = x} {b' = y} {l = l} q q') right =
        ap₂ (λ (a b : ℕ × ℕ). fill (a ∷ b ∷ l) r) q q'
        ∙ ap (fill l) (fill_swap y x r right.1.0 right.0)
    fill-perm r (Permᴰ.trans p q) right = fill-perm r p (All-perm _ q right) ∙ fill-perm r q right
