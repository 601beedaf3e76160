-- ===== src/Pull/Receivers.antt =====
-- `pull_receivers` (src/indexer/pull.rs) in a world that serves a ledger: it follows the plan that
-- the ledger alone gives.
use mathlib.Core.List.{Permᴰ}
use mathlib.Core.Path.{subst}
use manta_indexer.Prelude.{
  ℕ, ◌+◌, ◌-◌, ◌^◌, ◌≤◌, ◌<◌, ◌≡◌, refl, sym, ap₂, ◌∙◌, Bool, true, false, List, [], ◌∷◌, ◌++◌,
  append-nil, arith, length, take, drop, ltb, Bool-cases, inl, inr, ◌==◌, All, perm-length,
  length-append, length-take, length-drop,
}
use manta_indexer.External.{External}
use manta_indexer.Types.{ReceiverIndexArray, ReceiverChunk}
use manta_indexer.Store.{World, ok}
use manta_indexer.Store.Bind.{bind-ok}
use manta_indexer.Ledger.{Ledger, Fits, Serves}
use manta_indexer.Pull.{pull_shards, pull_receivers}
use manta_indexer.Pull.Slices.{pull_receivers_for_shard-slice}
use manta_indexer.Pull.Plan.{
  take-all, chunk, takes, cursors, cut_short, takes_full, cursors_full, cut_short_full,
}
use manta_indexer.Pull.ShardLoop.{state, PulledAll, skip_step, full_step, go_step}

module _ (e : External) (l : Ledger e) where
  module _ (fits : Fits e l) (amount : ℕ) (amount_fits : amount ≤ 2 ^ 47) where
    pull_shards-PulledAll :
        (is : List ℕ) (s k : ℕ) (more : Bool) (pre : List ℕ) (acc : ReceiverChunk e) (w : World e)
        → Serves e w l
        → length pre ≡ s
        → length acc + k ≡ amount
        → s + length is ≤ 256
        → All (λ i. i ≤ 2 ^ 47) is
        → PulledAll e l amount s k more pre is acc w
    unfolding pull_shards takes cursors cut_short
    pull_shards-PulledAll [] s k more pre acc w serves here total shards small = record {
      items = [];
      left = k;
      after = w;
      runs =
          ap₂ (λ b a. (ok (state e l b (pre ++ []) a k), w)) (ground arith) (sym (append-nil acc));
      order = Permᴰ.nil;
      tables = refl;
      serves = serves;
    }
    pull_shards-PulledAll (i ∷ is) s k more pre acc w serves here total shards small =
        elim (Bool-cases (ltb i (length (l.shard s)))) [
          | inr absent ↦
              skip_step e l fits amount amount_fits s k i more pre is acc w serves absent (
                pull_shards-PulledAll is (s + 1) k more (pre ++ i ∷ []) acc w serves
                  (omega (arith, length-append pre (i ∷ []))) total (omega arith) small.1)
          | inl present ↦
              (let (items, w', pulled, order, tables, serves') =
                  pull_receivers_for_shard-slice e l s i k acc w fits serves (omega arith)
                    (omega (arith, amount_fits, small.0, total)) in
                elim (Bool-cases (length (chunk e l k s i) == k)) [
                  | inl full ↦
                      full_step e l fits amount amount_fits s k i more pre is acc w serves here
                        total small.0 present items w' pulled order tables serves'
                        (ground (arith, full))
                  | inr part ↦
                      go_step e l fits amount amount_fits s k i more pre is acc w serves here total
                        small.0 present items w' pulled order tables serves' part
                        (pull_shards-PulledAll is (s + 1) (k - length (chunk e l k s i)) more
                          (pre ++ (i + length (chunk e l k s i)) ∷ []) (acc ++ items) w' serves'
                          (omega
                            (arith, length-append pre ((i + length (chunk e l k s i)) ∷ []), here))
                          (omega (
                            arith,
                            length-append acc items,
                            perm-length order,
                            length-take k (drop i (l.shard s)),
                            total,
                          ))
                          (omega arith) small.1)
                ])
        ]

  -- In a world that serves a ledger, whatever its cache holds, for indices of at most 256 shards that
  -- are at most 2^47 and an amount of at most 2^47: the call succeeds; its receivers are those of the
  -- plan, none missing and none twice; every index moves on by what its shard gave; it says that
  -- there is more exactly where the shard that used up the amount goes on; it leaves the tables
  -- alone; and the world still serves the ledger.
  pub pull_receivers-plan :
      (indices : ReceiverIndexArray) (amount : ℕ) (w : World e)
      → Fits e l
      → Serves e w l
      → amount ≤ 2 ^ 47
      → length indices ≤ 256
      → All (λ i. i ≤ 2 ^ 47) indices
      → (items : ReceiverChunk e) × (w' : World e) × (pull_receivers e indices amount w
          ≡ (ok (cut_short e l amount 0 indices, cursors e l amount 0 indices, items), w'))
        × Permᴰ items (takes e l amount 0 indices)
        × (w'.tables ≡ w.tables)
        × Serves e w' l
  unfolding pull_receivers
  pull_receivers-plan indices amount w fits serves amount_fits shards small =
      let r =
        pull_shards-PulledAll fits amount amount_fits indices 0 amount false [] [] w serves refl
          (omega arith) (omega arith) small in
      (r.items, r.after, bind-ok _ _ r.runs, r.order, r.tables, r.serves)

  -- In a world that serves a ledger, whatever its cache holds, for indices of at most 256 shards that
  -- are at most 2^47 and a positive amount of at most 2^47, where the first shard holds exactly the
  -- amount from its index on: the call succeeds with the receivers of that shard; it says that there
  -- are no more; and it leaves the indices of the shards after it as they were, whatever they hold.
  pub pull_receivers-stops :
      (i : ℕ) (is : ReceiverIndexArray) (amount : ℕ) (w : World e)
      → Fits e l
      → Serves e w l
      → amount ≤ 2 ^ 47
      → length (i ∷ is) ≤ 256
      → All (λ j. j ≤ 2 ^ 47) (i ∷ is)
      → length (l.shard 0) ≡ i + amount
      → 0 < amount
      → (items : ReceiverChunk e) × (w' : World e) × (pull_receivers e (i ∷ is) amount w
          ≡ (ok (false, (i + amount) ∷ is, items), w'))
        × Permᴰ items (drop i (l.shard 0))
  pull_receivers-stops i is amount w fits serves amount_fits shards small exact some_wanted =
      let (items, w', runs, order, _, _) =
        pull_receivers-plan (i ∷ is) amount w fits serves amount_fits shards small in
      let present : ltb i (length (l.shard 0)) ≡ true = ground (arith, exact, some_wanted) in
      let full : length (chunk e l amount 0 i) ≡ amount =
        omega (arith, length-take amount (drop i (l.shard 0)), length-drop i (l.shard 0)) in
      let whole : take amount (drop i (l.shard 0)) ≡ drop i (l.shard 0) =
        take-all amount (drop i (l.shard 0)) (omega (arith, length-drop i (l.shard 0))) in
      let ends : ltb (i + amount) (length (l.shard 0)) ≡ false = ground (arith, exact) in
      (
        items,
        w',
        runs
            ∙ ap₂ (λ c x. (ok (c, x, items), w'))
                (cut_short_full e l amount 0 i is present full ∙ ends)
                (cursors_full e l amount 0 i is present full),
        subst (Permᴰ items) (takes_full e l amount 0 i is present full ∙ whole) order,
      )
