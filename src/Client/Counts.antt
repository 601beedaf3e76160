-- ===== src/Client/Counts.antt =====
-- Counting the receivers of a response by their shards gives how far the plan of the pull moved.
use manta_indexer.Prelude.{
  ℕ, zero, suc, ◌+◌, ◌-◌, ◌<◌, ◌≡◌, ◌≢◌, refl, ap₂, ◌∙◌, false, some, List, [], ◌∷◌, ◌++◌, arith,
  length, filter, filter-append, get_or, All, All-append, All-take, All-drop, All-zip,
  filter_accepts, filter_rejects, length-append, ◌==◌,
}
use manta_indexer.External.{External}
use manta_indexer.Types.{Receiver}
use manta_indexer.Ledger.{Ledger}
use manta_indexer.Pull.Plan.{chunk, takes, cursors}
use manta_indexer.Sync.Entries.{belongs, stray}

module _ (e : External) (l : Ledger e) where
  -- Every receiver is in the shard that the Merkle forest gives it.
  abbrev pub InPlace : Type 0
  InPlace = (s : ℕ) → All (λ (r : Receiver e). e.tree_index r.0 ≡ some s) (l.shard s)

  module _ (in_place : InPlace) where
    chunk-InPlace :
        (k s i : ℕ) → All (λ (r : Receiver e). e.tree_index r.0 ≡ some s) (chunk e l k s i)
    chunk-InPlace k s i = All-take _ k _ (All-drop _ i (l.shard s) (in_place s))

    as_found : (s t : ℕ) (r : Receiver e) → e.tree_index r.0 ≡ some s → belongs e t r ≡ (s == t)
    as_found s t r q = rw (belongs, q) refl

    not_stray : (s : ℕ) (r : Receiver e) → e.tree_index r.0 ≡ some s → stray e r ≡ false
    not_stray s r q = rw (stray, q) refl

    chunk-belongs : (k s i : ℕ) → filter (belongs e s) (chunk e l k s i) ≡ chunk e l k s i
    chunk-belongs k s i = filter_accepts (belongs e s) (chunk e l k s i) (
        All-zip (λ r q _. as_found s s r q ∙ ground arith) (chunk e l k s i) (chunk-InPlace k s i)
          (chunk-InPlace k s i))

    chunk-other : (k s i t : ℕ) → s ≢ t → filter (belongs e t) (chunk e l k s i) ≡ []
    chunk-other k s i t other = filter_rejects (belongs e t) (chunk e l k s i) (
        All-zip (λ r q _. as_found s t r q ∙ ground (arith, other)) (chunk e l k s i)
          (chunk-InPlace k s i) (chunk-InPlace k s i))

    -- The shards from `s` on give nothing that belongs before them.
    takes-before : (k s t : ℕ) (is : List ℕ) → t < s → filter (belongs e t) (takes e l k s is) ≡ []
    unfolding takes
    takes-before k s t [] before = refl
    takes-before k s t (i ∷ is) before =
        let r = k - length (chunk e l k s i) in
        filter-append (belongs e t) (chunk e l k s i) (takes e l r (s + 1) is)
        ∙ ap₂ ◌++◌ (chunk-other k s i t (λ q. omega (arith, q, before)))
            (takes-before r (s + 1) t is (omega (arith, before)))

    -- An index moves by the number of receivers that belong to its shard.
    pub cursors-count :
        (k s j : ℕ) (is : List ℕ)
        → j < length is
        → get_or (cursors e l k s is) j 0
          ≡ get_or is j 0 + length (filter (belongs e (s + j)) (takes e l k s is))
    unfolding takes cursors
    cursors-count k s j [] lt = absurd (omega arith)
    cursors-count k s zero (i ∷ is) lt =
        let r = k - length (chunk e l k s i) in
        let here : s + zero ≡ s = omega arith in
        rw
          (
            here,
            filter-append (belongs e s) (chunk e l k s i) (takes e l r (s + 1) is),
            chunk-belongs k s i,
            takes-before r (s + 1) s is (omega arith),
          )
          (omega (arith, length-append (chunk e l k s i) []))
    cursors-count k s (suc j) (i ∷ is) lt =
        let r = k - length (chunk e l k s i) in
        let here : s + suc j ≡ s + 1 + j = omega arith in
        rw
          (
            here,
            filter-append (belongs e (s + 1 + j)) (chunk e l k s i) (takes e l r (s + 1) is),
            chunk-other k s i (s + 1 + j) (λ q. omega (arith, q)),
          )
          (cursors-count r (s + 1) j is (omega (arith, lt)))

    pub takes-InPlace :
        (k s : ℕ) (is : List ℕ) → All (λ (r : Receiver e). stray e r ≡ false) (takes e l k s is)
    unfolding takes
    takes-InPlace k s [] = tt
    takes-InPlace k s (i ∷ is) =
        let r = k - length (chunk e l k s i) in
        All-append _ (chunk e l k s i) (takes e l r (s + 1) is)
          (All-zip (λ x q _. not_stray s x q) (chunk e l k s i) (chunk-InPlace k s i)
            (chunk-InPlace k s i))
          (takes-InPlace r (s + 1) is)
