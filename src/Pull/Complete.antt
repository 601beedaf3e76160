-- ===== src/Pull/Complete.antt =====
-- `pull_receivers` (src/indexer/pull.rs) where the amount is above all that is left in the ledger.
use mathlib.Core.List.{Permᴰ}
use mathlib.Core.Path.{subst}
use manta_indexer.Prelude.{
  ℕ, ◌+◌, ◌-◌, ◌^◌, ◌≤◌, ◌<◌, ◌≡◌, refl, ap, ap₂, ◌∙◌, false, List, [], ◌∷◌, ◌++◌, arith, length,
  drop, ltb, All, length-append, length-drop, Bool-cases, inl, inr, ◌==◌,
}
use manta_indexer.External.{External}
use manta_indexer.Types.{ReceiverIndexArray, ReceiverChunk}
use manta_indexer.Store.{World, ok}
use manta_indexer.Ledger.{Ledger, Fits, Serves}
use manta_indexer.Pull.{pull_receivers}
use manta_indexer.Pull.Plan.{chunk, takes, cursors, cut_short, take-all, cut_short_go}
use manta_indexer.Pull.Receivers.{pull_receivers-plan}

module _ (e : External) (l : Ledger e) where
  -- All that the shards from `s` on hold at their indices and after.
  abbrev pub rests : ℕ → List ℕ → ReceiverChunk e
  rests s [] = []
  rests s (i ∷ is) = drop i (l.shard s) ++ rests (s + 1) is

  -- The index after the last receiver of each shard, or the index that is already past it.
  abbrev pub ends : ℕ → List ℕ → ReceiverIndexArray
  ends s [] = []
  ends s (i ∷ is) = (i + (length (l.shard s) - i)) ∷ ends (s + 1) is

  module _ (k s i : ℕ) (is : List ℕ) (enough : length (rests s (i ∷ is)) < k) where
    whole : chunk e l k s i ≡ drop i (l.shard s)
    whole =
        take-all k (drop i (l.shard s))
          (omega (arith, length-append (drop i (l.shard s)) (rests (s + 1) is)))

    still_enough : length (rests (s + 1) is) < k - length (chunk e l k s i)
    still_enough =
        omega (arith, ap length whole, length-append (drop i (l.shard s)) (rests (s + 1) is))

    not_full : (length (chunk e l k s i) == k) ≡ false
    not_full =
        ground
          (arith, ap length whole, length-append (drop i (l.shard s)) (rests (s + 1) is), enough)

  takes-rests : (k s : ℕ) (is : List ℕ) → length (rests s is) < k → takes e l k s is ≡ rests s is
  unfolding takes
  takes-rests k s [] enough = refl
  takes-rests k s (i ∷ is) enough =
      ap₂ ◌++◌ (whole k s i is enough)
        (takes-rests (k - length (chunk e l k s i)) (s + 1) is (still_enough k s i is enough))

  cursors-ends : (k s : ℕ) (is : List ℕ) → length (rests s is) < k → cursors e l k s is ≡ ends s is
  unfolding cursors
  cursors-ends k s [] enough = refl
  cursors-ends k s (i ∷ is) enough =
      ap₂ ◌∷◌ (ap (λ n. i + n) (ap length (whole k s i is enough) ∙ length-drop i (l.shard s)))
        (cursors-ends (k - length (chunk e l k s i)) (s + 1) is (still_enough k s i is enough))

  cut_short-rests : (k s : ℕ) (is : List ℕ) → length (rests s is) < k → cut_short e l k s is ≡ false
  unfolding cut_short
  cut_short-rests k s [] enough = refl
  cut_short-rests k s (i ∷ is) enough =
      let rest =
        cut_short-rests (k - length (chunk e l k s i)) (s + 1) is (still_enough k s i is enough) in
      elim (Bool-cases (ltb i (length (l.shard s)))) [
        | inl present ↦ cut_short_go e l k s i is present (not_full k s i is enough) ∙ rest
        | inr absent ↦ rw absent rest
      ]

  -- In a world that serves a ledger, whatever its cache holds, for indices of at most 256 shards that
  -- are at most 2^47 and an amount of at most 2^47 that is above the number of all receivers left at
  -- the indices and after: the call gives all of these, none missing and none twice; it says that
  -- there are no more; and every index moves to the end of its shard, or stays if it is past it.
  pub pull_receivers_complete :
      (indices : ReceiverIndexArray) (amount : ℕ) (w : World e)
      → Fits e l
      → Serves e w l
      → amount ≤ 2 ^ 47
      → length indices ≤ 256
      → All (λ i. i ≤ 2 ^ 47) indices
      → length (rests 0 indices) < amount
      → (items : ReceiverChunk e) × (w' : World e) × (pull_receivers e indices amount w
          ≡ (ok (false, ends 0 indices, items), w'))
        × Permᴰ items (rests 0 indices)
  pull_receivers_complete indices amount w fits serves amount_fits shards small enough =
      let (items, w', runs, order, _, _) =
        pull_receivers-plan e l indices amount w fits serves amount_fits shards small in
      (
        items,
        w',
        runs
            ∙ ap₂ (λ c x. (ok (c, x, items), w')) (cut_short-rests amount 0 indices enough)
                (cursors-ends amount 0 indices enough),
        subst (Permᴰ items) (takes-rests amount 0 indices enough) order,
      )
