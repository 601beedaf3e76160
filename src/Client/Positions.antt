-- ===== src/Client/Positions.antt =====
-- Positions within a ledger, and how the plan of a pull (src/indexer/pull.rs) moves them.
use manta_indexer.Prelude.{
  ℕ, zero, suc, ◌+◌, ◌-◌, ◌^◌, ◌≤◌, ◌<◌, ◌≡◌, refl, ap, ◌∙◌, true, List, [], ◌∷◌, arith, length,
  drop, get_or, replicate, All, length-append, length-take, length-drop,
}
use manta_indexer.External.{External}
use manta_indexer.Ledger.{Ledger}
use manta_indexer.Pull.Plan.{chunk, takes, cursors, cut_short, takes_zero}
use manta_indexer.Pull.Complete.{rests}

module _ (e : External) (l : Ledger e) where
  -- Indices of the shards from `s` on, none past the end of its shard.
  abbrev pub Inside : ℕ → List ℕ → Type 0
  Inside s [] = Unit
  Inside s (i ∷ is) = (i ≤ length (l.shard s)) × Inside (s + 1) is

  pub Inside-small :
      (s : ℕ) (is : List ℕ)
      → ((t : ℕ) → length (l.shard t) ≤ 2 ^ 47)
      → Inside s is
      → All (λ i. i ≤ 2 ^ 47) is
  Inside-small s [] small inside = tt
  Inside-small s (i ∷ is) small inside =
      (omega (arith, small s, inside.0), Inside-small (s + 1) is small inside.1)

  pub Inside-replicate : (s n : ℕ) → Inside s (replicate n 0)
  Inside-replicate s zero = tt
  Inside-replicate s (suc n) = (omega arith, Inside-replicate (s + 1) n)

  module _ (k s i : ℕ) where
    abbrev count : ℕ
    count = length (chunk e l k s i)

    moved : i ≤ length (l.shard s) → i + count ≤ length (l.shard s)
    moved inside =
        omega (arith, length-take k (drop i (l.shard s)), length-drop i (l.shard s), inside)

  pub cursors-Inside : (k s : ℕ) (is : List ℕ) → Inside s is → Inside s (cursors e l k s is)
  unfolding cursors
  cursors-Inside k s [] inside = tt
  cursors-Inside k s (i ∷ is) inside =
      (moved k s i inside.0, cursors-Inside (k - count k s i) (s + 1) is inside.1)

  pub length-cursors : (k s : ℕ) (is : List ℕ) → length (cursors e l k s is) ≡ length is
  unfolding cursors
  length-cursors k s [] = refl
  length-cursors k s (i ∷ is) = ap suc (length-cursors (k - count k s i) (s + 1) is)

  -- What is left after a pull is what was left before it, less what it gave.
  pub length-rests-cursors :
      (k s : ℕ) (is : List ℕ)
      → length (rests e l s (cursors e l k s is)) + length (takes e l k s is)
        ≡ length (rests e l s is)
  unfolding takes cursors
  length-rests-cursors k s [] = omega arith
  length-rests-cursors k s (i ∷ is) =
      let rest = cursors e l (k - count k s i) (s + 1) is in
      omega (
        arith,
        length-rests-cursors (k - count k s i) (s + 1) is,
        length-append (drop i (l.shard s)) (rests e l (s + 1) is),
        length-append (drop (i + count k s i) (l.shard s)) (rests e l (s + 1) rest),
        length-append (chunk e l k s i) (takes e l (k - count k s i) (s + 1) is),
        length-drop i (l.shard s),
        length-drop (i + count k s i) (l.shard s),
        length-take k (drop i (l.shard s)),
      )

  -- A pull that is cut short gave the whole amount.
  pub cut_short-full :
      (k s : ℕ) (is : List ℕ) → cut_short e l k s is ≡ true → length (takes e l k s is) ≡ k
  unfolding takes cut_short
  cut_short-full k s [] cut = absurd (cc cut)
  cut_short-full k s (i ∷ is) cut =
      let r = k - count k s i in
      ground (
        arith,
        cut,
        cut_short-full r (s + 1) is,
        length-append (chunk e l k s i) (takes e l r (s + 1) is),
        length-take k (drop i (l.shard s)),
        ap length (takes_zero e l (s + 1) is),
      )

  -- A pull that gave less than the amount left nothing.
  pub rests-none :
      (k s : ℕ) (is : List ℕ)
      → length (takes e l k s is) < k
      → length (rests e l s (cursors e l k s is)) ≡ 0
  unfolding takes cursors
  rests-none k s [] less = refl
  rests-none k s (i ∷ is) less =
      let r = k - count k s i in
      let rest = cursors e l r (s + 1) is in
      let whole = length-append (chunk e l k s i) (takes e l r (s + 1) is) in
      omega (
        arith,
        less,
        whole,
        rests-none r (s + 1) is (omega (arith, less, whole)),
        length-append (drop (i + count k s i) (l.shard s)) (rests e l (s + 1) rest),
        length-drop i (l.shard s),
        length-drop (i + count k s i) (l.shard s),
        length-take k (drop i (l.shard s)),
      )

  -- Where nothing is left, every index is at the end of its shard.
  pub rests-ends :
      (s j : ℕ) (is : List ℕ)
      → Inside s is
      → length (rests e l s is) ≡ 0
      → j < length is
      → get_or is j 0 ≡ length (l.shard (s + j))
  rests-ends s j [] inside none_left lt = absurd (omega arith)
  rests-ends s zero (i ∷ is) inside none_left lt = omega (
    arith,
    ap (λ t. length (l.shard t)) (let q : s + zero ≡ s = omega arith in q),
    inside.0,
    none_left,
    length-append (drop i (l.shard s)) (rests e l (s + 1) is),
    length-drop i (l.shard s),
  )
  rests-ends s (suc j) (i ∷ is) inside none_left lt =
      rests-ends (s + 1) j is inside.1
        (omega (arith, none_left, length-append (drop i (l.shard s)) (rests e l (s + 1) is)))
        (omega (arith, lt))
      ∙ ap (λ t. length (l.shard t)) (omega arith)
