-- ===== src/Pull/ShardLoop.antt =====
-- The steps of the loop of `pull_receivers` (src/indexer/pull.rs) in a world that serves a ledger.
use mathlib.Core.List.{Permᴰ}
use mathlib.Core.List.Permᴰ
use mathlib.Core.Path.{subst}
use manta_indexer.Prelude.{
  ℕ, ◌+◌, ◌-◌, ◌^◌, ◌≤◌, ◌≡◌, sym, ap, ap₂, ◌∙◌, Bool, true, false, ◌||◌, List, [], ◌∷◌, ◌++◌,
  append_assoc, arith, length, drop, ltb, set, ◌==◌, perm-length, length-append, length-take,
}
use manta_indexer.Words.{add64, sub64}
use manta_indexer.External.{External}
use manta_indexer.Types.{ReceiverIndexArray, ReceiverChunk}
use manta_indexer.Store.{World, ok}
use manta_indexer.Store.Bind.{bind-ok}
use manta_indexer.Db.{has_shard}
use manta_indexer.Db.Calm.{has_shard-calm}
use manta_indexer.Ledger.{Ledger, Fits, Serves}
use manta_indexer.Ledger.Reads.{stored_shard}
use manta_indexer.Pull.{PullState, pull_shards, pull_receivers_for_shard}
use manta_indexer.Pull.Plan.{
  chunk, takes, cursors, cut_short, set-append, takes_skip, cursors_skip, cut_short_skip,
  takes_full, cursors_full, cut_short_full, cut_short_go, spent,
}

module _ (e : External) (l : Ledger e) where
  -- The state of the loop: what it has, and the indices that it still has to visit, after `pre`.
  abbrev pub state : Bool → ReceiverIndexArray → ReceiverChunk e → ℕ → PullState e
  state more indices acc k = record {
    more_receivers = more;
    next_indices = indices;
    receivers = acc;
    remain = k;
  }

  -- What the loop does from shard `s` on.
  pub record PulledAll (amount s k : ℕ) (more : Bool) (pre is : List ℕ) (acc : ReceiverChunk e)
      (w : World e) : Type 0 where
    pub items : ReceiverChunk e
    pub left : ℕ
    pub after : World e
    pub runs : pull_shards e amount s is (state more (pre ++ is) acc k) w ≡ (
      ok (state (more || cut_short e l k s is) (pre ++ cursors e l k s is) (acc ++ items) left),
      after,
    )
    pub order : Permᴰ items (takes e l k s is)
    pub tables : after.tables ≡ w.tables
    pub serves : Serves e after l

  module _ (fits : Fits e l) (amount : ℕ) (amount_fits : amount ≤ 2 ^ 47) where
    present_step :
        (s i : ℕ) (w : World e)
        → Serves e w l
        → has_shard e s i w ≡ (ok (ltb i (length (l.shard s))), w)
    present_step s i w serves =
        has_shard-calm e w serves.calm s i ∙ ap (λ b. (ok b, w)) (stored_shard serves.stores s i)

    -- A shard with nothing at its index is passed over.
    pub skip_step :
        (s k i : ℕ) (more : Bool) (pre is : List ℕ) (acc : ReceiverChunk e) (w : World e)
        → Serves e w l
        → ltb i (length (l.shard s)) ≡ false
        → PulledAll amount (s + 1) k more (pre ++ i ∷ []) is acc w
        → PulledAll amount s k more pre (i ∷ is) acc w
    unfolding pull_shards
    skip_step s k i more pre is acc w serves absent rest = record {
      items = rest.items;
      left = rest.left;
      after = rest.after;
      runs =
          let e1 : pre ++ i ∷ is ≡ (pre ++ i ∷ []) ++ is = sym (append_assoc pre (i ∷ []) is) in
          let e2 : pre ++ cursors e l k s (i ∷ is) ≡ (pre ++ i ∷ []) ++ cursors e l k (s + 1) is =
            ap (λ c. pre ++ c) (cursors_skip e l k s i is absent)
            ∙ sym (append_assoc pre (i ∷ []) (cursors e l k (s + 1) is)) in
          bind-ok _ _ (present_step s i w serves)
          ∙ rw (absent, e1, e2, cut_short_skip e l k s i is absent) rest.runs;
      order = rw (takes_skip e l k s i is absent) rest.order;
      tables = rest.tables;
      serves = rest.serves;
    }

    -- The index of the shard moves on by what was pulled.
    moved :
        (k i : ℕ) (pre is : List ℕ) (acc items : ReceiverChunk e)
        → length acc + k ≡ amount
        → length items ≤ k
        → i ≤ 2 ^ 47
        → set (pre ++ i ∷ is) (length pre) (sub64 (add64 i (length (acc ++ items))) (length acc))
          ≡ pre ++ (i + length items) ∷ is
    moved k i pre is acc items total few small =
        let e1 : sub64 (add64 i (length (acc ++ items))) (length acc) ≡ i + length items =
          omega (arith, length-append acc items) in
        rw e1 (set-append pre i (i + length items) is)

    module _ (s k i : ℕ) (more : Bool) (pre is : List ℕ) (acc : ReceiverChunk e) (w : World e)
        (serves : Serves e w l) (here : length pre ≡ s) (total : length acc + k ≡ amount)
        (small : i ≤ 2 ^ 47) (present : ltb i (length (l.shard s)) ≡ true) (items : ReceiverChunk e)
        (w' : World e)
        (pulled : pull_receivers_for_shard e s i k acc w
          ≡ (ok (acc ++ items, ltb (i + k) (length (l.shard s))), w'))
        (order : Permᴰ items (chunk e l k s i)) (tables : w'.tables ≡ w.tables)
        (serves' : Serves e w' l) where
      indices_step :
          set (pre ++ i ∷ is) s (sub64 (add64 i (length (acc ++ items))) (length acc))
          ≡ pre ++ (i + length (chunk e l k s i)) ∷ is
      indices_step =
          subst
            (λ t.
              set (pre ++ i ∷ is) t (sub64 (add64 i (length (acc ++ items))) (length acc))
              ≡ pre ++ (i + length (chunk e l k s i)) ∷ is)
            here
            (moved k i pre is acc items total
                (omega (arith, perm-length order, length-take k (drop i (l.shard s)))) small
              ∙ ap (λ n. pre ++ (i + n) ∷ is) (perm-length order))

      -- The shard gives all that is left of the amount, and the loop ends.
      pub full_step : length (chunk e l k s i) ≡ k → PulledAll amount s k more pre (i ∷ is) acc w
      unfolding pull_shards
      full_step full = record {
        items = items;
        left = k;
        after = w';
        runs =
            let stop : (length (acc ++ items) == amount) ≡ true =
              ground (arith, length-append acc items, perm-length order, full, total) in
            bind-ok _ _ (present_step s i w serves)
            ∙ rw present (
                bind-ok _ _ pulled
                ∙ rw stop (
                    ap₂ (λ c x. (ok (state (more || c) x (acc ++ items) k), w'))
                      (sym (cut_short_full e l k s i is present full))
                      (indices_step
                        ∙ ap (λ n. pre ++ (i + n) ∷ is) full
                        ∙ ap (λ x. pre ++ x) (sym (cursors_full e l k s i is present full)))));
        order = rw (takes_full e l k s i is present full) order;
        tables = tables;
        serves = serves';
      }

      abbrev moved_to : ℕ
      moved_to = i + length (chunk e l k s i)

      abbrev left_over : ℕ
      left_over = k - length (chunk e l k s i)

      enter :
          (length (chunk e l k s i) == k) ≡ false
          → pull_shards e amount
              (s + 1)
              is
              (state
                (more || ltb (i + k) (length (l.shard s)))
                (set (pre ++ i ∷ is) s (sub64 (add64 i (length (acc ++ items))) (length acc)))
                (acc ++ items)
                (sub64 amount (length (acc ++ items))))
              w'
            ≡ pull_shards e amount
                (s + 1)
                is
                (state more ((pre ++ moved_to ∷ []) ++ is) (acc ++ items) left_over)
                w'
      enter part =
          let e1 : (more || ltb (i + k) (length (l.shard s))) ≡ more =
            ground (arith, spent e l k s i is present part) in
          let e2 : sub64 amount (length (acc ++ items)) ≡ left_over = omega (
            arith,
            length-append acc items,
            perm-length order,
            length-take k (drop i (l.shard s)),
            total,
            amount_fits,
          ) in
          ap₂
            (λ b x.
              pull_shards e amount (s + 1) is
                (state b x (acc ++ items) (sub64 amount (length (acc ++ items)))) w')
            e1 (indices_step ∙ sym (append_assoc pre (moved_to ∷ []) is))
          ∙ ap
              (λ r.
                pull_shards e amount (s + 1) is
                  (state more ((pre ++ moved_to ∷ []) ++ is) (acc ++ items) r) w')
              e2

      leave :
          (length (chunk e l k s i) == k) ≡ false
          → (more_items : ReceiverChunk e) (left : ℕ)
          → state
              (more || cut_short e l left_over (s + 1) is)
              ((pre ++ moved_to ∷ []) ++ cursors e l left_over (s + 1) is)
              ((acc ++ items) ++ more_items)
              left
            ≡ state
                (more || cut_short e l k s (i ∷ is))
                (pre ++ cursors e l k s (i ∷ is))
                (acc ++ (items ++ more_items))
                left
      unfolding cursors
      leave part more_items left =
          ap₂ (λ c x. state (more || c) x ((acc ++ items) ++ more_items) left)
            (sym (cut_short_go e l k s i is present part))
            (append_assoc pre (moved_to ∷ []) (cursors e l left_over (s + 1) is))
          ∙ ap
              (λ x.
                state (more || cut_short e l k s (i ∷ is)) (pre ++ cursors e l k s (i ∷ is)) x left)
              (append_assoc acc items more_items)

      -- The shard gives less, and the loop goes on.
      pub go_step :
          (length (chunk e l k s i) == k) ≡ false
          → PulledAll amount (s + 1) left_over more (pre ++ moved_to ∷ []) is (acc ++ items) w'
          → PulledAll amount s k more pre (i ∷ is) acc w
      unfolding pull_shards takes
      go_step part rest = record {
        items = items ++ rest.items;
        left = rest.left;
        after = rest.after;
        runs =
            let go : (length (acc ++ items) == amount) ≡ false =
              ground (arith, length-append acc items, perm-length order, part, total) in
            bind-ok _ _ (present_step s i w serves)
            ∙ rw present (
                bind-ok _ _ pulled
                ∙ rw go (
                    enter part
                    ∙ rest.runs
                    ∙ ap (λ st. (ok st, rest.after)) (leave part rest.items rest.left)));
        order =
            Permᴰ.trans (Permᴰ.append_left items rest.order)
              (Permᴰ.append_right (takes e l left_over (s + 1) is) order);
        tables = rest.tables ∙ tables;
        serves = rest.serves;
      }
