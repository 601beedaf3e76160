-- ===== src/Cache/Sharded/Groups.antt =====
-- The HashMaps in which `ShardThreadSafeLru` (src/indexer/cache.rs) groups keys: nothing is lost, and
-- every key is in the group of its remainder.
use mathlib.Core.List.{Permᴰ}
use mathlib.Core.List.Permᴰ
use mathlib.Core.Path.{subst}
use manta_indexer.Prelude.{
  ℕ, ◌%◌, ◌<◌, ◌≡◌, refl, sym, ap₂, arith, List, [], ◌∷◌, ◌++◌, append_assoc, All, Bool-cases, inl,
  inr, ◌==◌,
}
use manta_indexer.Sync.{push_entry}

module _ {A : Type 0} where
  -- All groups after each other.
  abbrev pub flat : List (ℕ × List A) → List A
  flat [] = []
  flat ((k, xs) ∷ m) = xs ++ flat m

  flat_swap : (xs ys zs : List A) → Permᴰ (xs ++ (ys ++ zs)) (ys ++ (xs ++ zs))
  flat_swap xs ys zs =
      subst (λ l. Permᴰ l (ys ++ (xs ++ zs))) (append_assoc xs ys zs)
        (subst (Permᴰ ((xs ++ ys) ++ zs)) (append_assoc ys xs zs)
          (Permᴰ.append_right zs (Permᴰ.append_comm xs ys)))

  pub flat-perm : {m m' : List (ℕ × List A)} → Permᴰ m m' → Permᴰ (flat m) (flat m')
  flat-perm Permᴰ.nil = Permᴰ.nil
  flat-perm (Permᴰ.cons {b = g} {l₁ = l1} {l₂ = l2} q p) =
      subst (λ (h : ℕ × List A). Permᴰ (flat (h ∷ l1)) (flat (g ∷ l2))) (sym q)
        (Permᴰ.append_left g.1 (flat-perm p))
  flat-perm (Permᴰ.swap {a' = x} {b' = y} {l = l} q q') =
      subst (λ (z : List A). Permᴰ z (flat (x ∷ y ∷ l)))
        (ap₂ (λ (a b : ℕ × List A). flat (a ∷ b ∷ l)) (sym q) (sym q')) (flat_swap y.1 x.1 (flat l))
  flat-perm (Permᴰ.trans p q) = Permᴰ.trans (flat-perm p) (flat-perm q)

  pub flat-push_entry :
      (k : ℕ) (x : A) (m : List (ℕ × List A)) → Permᴰ (flat (push_entry k x m)) (x ∷ flat m)
  unfolding push_entry
  flat-push_entry k x [] = Permᴰ.refl (x ∷ [])
  flat-push_entry k x ((j, xs) ∷ m) = elim (Bool-cases (j == k)) [
    | inl same ↦ rw same (
        subst (λ l. Permᴰ l (x ∷ xs ++ flat m)) (sym (append_assoc xs (x ∷ []) (flat m)))
          (Permᴰ.middle x xs (flat m)))
    | inr other ↦
        rw other
          (Permᴰ.trans (Permᴰ.append_left xs (flat-push_entry k x m)) (Permᴰ.middle x xs (flat m)))
  ]

  module _ (n : ℕ) (code : A → ℕ) where
    -- A group of a remainder below `n`, with what has that remainder.
    abbrev pub Own : ℕ × List A → Type 0
    Own g = (g.0 < n) × All (λ x. code x % n ≡ g.0) g.1

    All-snoc : (P : A → Type 0) (xs : List A) (x : A) → All P xs → P x → All P (xs ++ x ∷ [])
    All-snoc P [] x h p = (p, tt)
    All-snoc P (y ∷ xs) x h p = (h.0, All-snoc P xs x h.1 p)

    pub push_entry-Own :
        (x : A) (m : List (ℕ × List A))
        → code x % n < n
        → All Own m
        → All Own (push_entry (code x % n) x m)
    unfolding push_entry
    push_entry-Own x [] below own = ((below, (refl, tt)), tt)
    push_entry-Own x ((j, xs) ∷ m) below own = elim (Bool-cases (j == code x % n)) [
      | inl same ↦
          rw same
            ((own.0.0, All-snoc (λ y. code y % n ≡ j) xs x own.0.1 (ground (arith, same))), own.1)
      | inr other ↦ rw other (own.0, push_entry-Own x m below own.1)
    ]
