-- ===== src/Pull/Plan.antt =====
-- What `pull_receivers` (src/indexer/pull.rs) should give, as a function of the ledger alone: shard
-- by shard, as much as is left of the amount from each index on.
use manta_indexer.Prelude.{
  ℕ, zero, suc, ◌+◌, ◌-◌, ◌≤◌, ◌≡◌, refl, ap, ap₂, ◌∙◌, Bool, true, false, List, [], ◌∷◌, ◌++◌,
  append-nil, arith, length, take, drop, ltb, ◌==◌, if◌then◌else◌, set, length-append, length-take,
  length-drop,
}
use manta_indexer.External.{External}
use manta_indexer.Types.{Receiver, ReceiverIndexArray}
use manta_indexer.Ledger.{Ledger}

pub take-drop_end {ℓ} :
    {A : Type ℓ} (k i : ℕ) (xs : List A) → ltb i (length xs) ≡ false → take k (drop i xs) ≡ []
take-drop_end zero i xs h = refl
take-drop_end (suc k) zero [] h = refl
take-drop_end (suc k) (suc i) [] h = refl
take-drop_end (suc k) zero (x ∷ xs) h = absurd (ground (arith, h))
take-drop_end (suc k) (suc i) (x ∷ xs) h = take-drop_end (suc k) i xs (ground (arith, h))

module _ (e : External) (l : Ledger e) where
  abbrev pub chunk : ℕ → ℕ → ℕ → List (Receiver e)
  chunk remain s i = take remain (drop i (l.shard s))

  -- The receivers of the shards from `s` on.
  unfoldable pub takes : ℕ → ℕ → List ℕ → List (Receiver e)
  takes remain s [] = []
  takes remain s (i ∷ is) =
      chunk remain s i ++ takes (remain - length (chunk remain s i)) (s + 1) is

  -- Where each shard's index stands then.
  unfoldable pub cursors : ℕ → ℕ → ReceiverIndexArray → ReceiverIndexArray
  cursors remain s [] = []
  cursors remain s (i ∷ is) =
      (i + length (chunk remain s i)) ∷ cursors (remain - length (chunk remain s i)) (s + 1) is

  -- Whether the shard that used up the amount goes on.
  unfoldable pub cut_short : ℕ → ℕ → List ℕ → Bool
  cut_short remain s [] = false
  cut_short remain s (i ∷ is) =
      let rest = cut_short (remain - length (chunk remain s i)) (s + 1) is in
      if ltb i (length (l.shard s))
      then (if length (chunk remain s i) == remain
          then ltb (i + remain) (length (l.shard s))
          else rest)
      else rest

  pub takes_zero : (s : ℕ) (is : List ℕ) → takes 0 s is ≡ []
  unfolding takes
  takes_zero s [] = refl
  takes_zero s (i ∷ is) = takes_zero (s + 1) is

  pub cursors_zero : (s : ℕ) (is : List ℕ) → cursors 0 s is ≡ is
  unfolding cursors
  cursors_zero s [] = refl
  cursors_zero s (i ∷ is) = ap₂ ◌∷◌ (omega arith) (cursors_zero (s + 1) is)

  pub length-takes : (k s : ℕ) (is : List ℕ) → length (takes k s is) ≤ k
  unfolding takes
  length-takes k s [] = omega arith
  length-takes k s (i ∷ is) = omega (
    arith,
    length-append (chunk k s i) (takes (k - length (chunk k s i)) (s + 1) is),
    length-takes (k - length (chunk k s i)) (s + 1) is,
    length-take k (drop i (l.shard s)),
  )

module _ (e : External) (l : Ledger e) (k s i : ℕ) (is : List ℕ) where
  module _ (absent : ltb i (length (l.shard s)) ≡ false) where
    none_left : length (chunk e l k s i) ≡ 0
    none_left = ap length (take-drop_end k i (l.shard s) absent)

    all_left : k - length (chunk e l k s i) ≡ k
    all_left = omega (arith, none_left)

    pub takes_skip : takes e l k s (i ∷ is) ≡ takes e l k (s + 1) is
    unfolding takes
    takes_skip =
        ap₂ ◌++◌ (take-drop_end k i (l.shard s) absent) (ap (λ r. takes e l r (s + 1) is) all_left)

    pub cursors_skip : cursors e l k s (i ∷ is) ≡ i ∷ cursors e l k (s + 1) is
    unfolding cursors
    cursors_skip = ap₂ ◌∷◌ (omega (arith, none_left)) (ap (λ r. cursors e l r (s + 1) is) all_left)

    pub cut_short_skip : cut_short e l k s (i ∷ is) ≡ cut_short e l k (s + 1) is
    unfolding cut_short
    cut_short_skip = rw absent (ap (λ r. cut_short e l r (s + 1) is) all_left)

  module _ (present : ltb i (length (l.shard s)) ≡ true) where
    module _ (full : length (chunk e l k s i) ≡ k) where
      used_up : k - length (chunk e l k s i) ≡ 0
      used_up = omega (arith, full)

      pub takes_full : takes e l k s (i ∷ is) ≡ chunk e l k s i
      unfolding takes
      takes_full =
          ap (λ r. chunk e l k s i ++ takes e l r (s + 1) is) used_up
          ∙ ap (λ r. chunk e l k s i ++ r) (takes_zero e l (s + 1) is)
          ∙ append-nil (chunk e l k s i)

      pub cursors_full : cursors e l k s (i ∷ is) ≡ (i + k) ∷ is
      unfolding cursors
      cursors_full =
          ap₂ ◌∷◌ (ap (λ n. i + n) full)
            (ap (λ r. cursors e l r (s + 1) is) used_up ∙ cursors_zero e l (s + 1) is)

      pub cut_short_full : cut_short e l k s (i ∷ is) ≡ ltb (i + k) (length (l.shard s))
      unfolding cut_short
      cut_short_full = ground (arith, full, present)

    pub cut_short_go :
        (length (chunk e l k s i) == k) ≡ false
        → cut_short e l k s (i ∷ is) ≡ cut_short e l (k - length (chunk e l k s i)) (s + 1) is
    unfolding cut_short
    cut_short_go part = ground (arith, part, present)

    -- A shard that gives less than was asked for has no more.
    pub spent : (length (chunk e l k s i) == k) ≡ false → ltb (i + k) (length (l.shard s)) ≡ false
    spent part = ground (arith, part, length-take k (drop i (l.shard s)), length-drop i (l.shard s))

pub set-append :
    (pre : List ℕ) (x v : ℕ) (xs : List ℕ) → set (pre ++ x ∷ xs) (length pre) v ≡ pre ++ v ∷ xs
set-append [] x v xs = refl
set-append (p ∷ pre) x v xs = ap (λ r. p ∷ r) (set-append pre x v xs)

pub take-all {ℓ} : {A : Type ℓ} (k : ℕ) (xs : List A) → length xs ≤ k → take k xs ≡ xs
take-all zero [] h = refl
take-all zero (x ∷ xs) h = absurd (omega arith)
take-all (suc k) [] h = refl
take-all (suc k) (x ∷ xs) h = ap (λ r. x ∷ r) (take-all k xs (omega arith))
