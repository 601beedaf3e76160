-- ===== src/Client/Follows.antt =====
-- `pull_ledger_diff_from_sqlite` (src/indexer/sync.rs) ends at the end of the ledger.
use mathlib.Core.Path.{subst}
use manta_indexer.Prelude.{
  ℕ, zero, suc, ◌+◌, ◌-◌, ◌≤◌, ◌<◌, ◌≡◌, ◌⊎◌, refl, sym, ap, ◌∙◌, ◌||◌, Bool, true, false, some,
  arith, length, drop, ltb, length-take, length-drop, length-replicate, Bool-cases, inl, inr,
}
use manta_indexer.External.{Bytes, External}
use manta_indexer.Types.{Checkpoint, PullResponse, default_checkpoint}
use manta_indexer.Store.{World, ok}
use manta_indexer.Store.Bind.{bind-ok, stop, go_on}
use manta_indexer.Ledger.{Ledger, Fits, Serves}
use manta_indexer.Ledger.Growth.{Marks}
use manta_indexer.Pull.{pull_ledger_diff, calculate_next_checkpoint}
use manta_indexer.Pull.Plan.{takes, cut_short, length-takes}
use manta_indexer.Pull.Complete.{rests}
use manta_indexer.Pull.Answers.{pull_ledger_diff-plan}
use manta_indexer.Sync.{Shards, finished, reconstruct_shards_from_pull_response, follow_sqlite}
use manta_indexer.Sync.Entries.{reconstruct_shards-entries}
use manta_indexer.Sync.Keys.{reconstruct_shards-KeysFit}
use manta_indexer.Client.Positions.{
  Inside-small, Inside-replicate, length-rests-cursors, cut_short-full, rests-none, rests-ends,
}
use manta_indexer.Client.Counts.{InPlace}
use manta_indexer.Client.Turns.{
  amount, Within, Roomy, onward, goes_on, onward-Within, turned, whole,
}

-- A total of 16 bytes is stored.
pub record Totalled (e : External) (w : World e) : Type 0 where
  pub total : Bytes
  pub stored : w.tables.senders_receivers_total ≡ some total
  pub size : length total ≡ 16

neither : (a b : Bool) → (a || b) ≡ false → (a ≡ false) × (b ≡ false)
neither true b h = absurd (cc h)
neither false b h = (refl, h)

ltb-true : (a b : ℕ) → ltb a b ≡ true → a < b
ltb-true a b h = ground (arith, h)

ltb-false : (a b : ℕ) → ltb a b ≡ false → b ≤ a
ltb-false a b h = ground (arith, h)

module _ (e : External) (l : Ledger e) (in_place : InPlace e l) (roomy : Roomy e l)
    (fits : Fits e l) where
  -- What stands after a checkpoint.
  abbrev pub left : Checkpoint → ℕ
  left c = length (rests e l 0 c.receiver_index) + (length l.senders - c.sender_index)

  left_less : (c : Checkpoint) → Within e l c → goes_on e l c ≡ true → left (onward e l c) < left c
  left_less c within more = ground (
    arith,
    more,
    cut_short-full e l amount 0 c.receiver_index,
    length-rests-cursors e l amount 0 c.receiver_index,
    length-take amount (drop c.sender_index l.senders),
    length-drop c.sender_index l.senders,
    within.senders,
  )

  -- The requests of the loop: each that says that more follows leads to the next.
  pub data Asks : Checkpoint → Checkpoint → Type 0 where
    here : (c : Checkpoint) → Asks c c
    next : (c d : Checkpoint) → goes_on e l c ≡ true → Asks (onward e l c) d → Asks c d

  -- The loop's last request, `before`, and the checkpoint `c` that its response leads to: at the end of
  -- the senders, and either at the end of every shard, or that response gave exactly the amount and
  -- the shard that it stopped in ended with it.
  pub record AtEnd (start c : Checkpoint) : Type 0 where
    pub before : Checkpoint
    pub asked : Asks start before
    pub over : goes_on e l before ≡ false
    pub moved : c ≡ onward e l before
    pub senders : c.sender_index ≡ length l.senders
    pub complete :
        Marks e c l
        ⊎ (length (takes e l amount 0 before.receiver_index) ≡ amount)
          × (cut_short e l amount 0 before.receiver_index ≡ false)

  onward-AtEnd : (c : Checkpoint) → Within e l c → goes_on e l c ≡ false → AtEnd c (onward e l c)
  onward-AtEnd c within over =
      let within' = onward-Within e l in_place roomy fits c within in
      let (ended, no_more) =
        neither (cut_short e l amount 0 c.receiver_index)
          (ltb (c.sender_index + amount) (length l.senders)) over in
      let senders : (onward e l c).sender_index ≡ length l.senders = omega (
        arith,
        ltb-false (c.sender_index + amount) (length l.senders) no_more,
        length-take amount (drop c.sender_index l.senders),
        length-drop c.sender_index l.senders,
        within.senders,
      ) in
      record {
        before = c;
        asked = here c;
        over = over;
        moved = refl;
        senders = senders;
        complete = elim (Bool-cases (ltb (length (takes e l amount 0 c.receiver_index)) amount)) [
          | inl less ↦
              let nothing = rests-none e l amount 0 c.receiver_index (ltb-true _ amount less) in
              inl (record {
                width = within'.width;
                shards = λ s inside.
                    rests-ends e l 0 s (onward e l c).receiver_index within'.receivers nothing
                      (omega (arith, inside, within'.width))
                    ∙ ap (λ t. length (l.shard t)) (omega arith);
                senders = senders;
              })
          | inr all ↦ inr (
            omega (arith, ltb-false _ amount all, length-takes e l amount 0 c.receiver_index),
            ended,
          )
        ];
      }

  -- What is the end of the loop from the next request on is its end from this one on.
  AtEnd-later : (c d : Checkpoint) → goes_on e l c ≡ true → AtEnd (onward e l c) d → AtEnd c d
  AtEnd-later c d more at_end = record {
    before = at_end.before;
    asked = next c at_end.before more at_end.asked;
    over = at_end.over;
    moved = at_end.moved;
    senders = at_end.senders;
    complete = at_end.complete;
  }

  -- One turn of the loop.
  turn_runs :
      (c : Checkpoint) (w : World e)
      → Within e l c
      → Serves e w l
      → Totalled e w
      → (r : PullResponse e) × (server : Checkpoint) × (shards : Shards e) × (w' : World e)
        × (pull_ledger_diff e c amount amount w ≡ (ok (r, server), w'))
        × (reconstruct_shards_from_pull_response e r w' ≡ (ok shards, w'))
        × (calculate_next_checkpoint (e.iterate shards) c c (length r.senders) ≡ onward e l c)
        × (r.should_continue ≡ goes_on e l c)
        × (w'.tables ≡ w.tables)
        × Serves e w' l
  turn_runs c w within serves totalled =
      let (receivers, senders, w', pulled, order1, order2, tables, serves') =
        pull_ledger_diff-plan e l c amount amount totalled.total w fits serves totalled.stored
          totalled.size (omega (arith, within.width))
          (Inside-small e l 0 c.receiver_index roomy within.receivers)
          (omega (arith, within.senders, fits.senders_fit)) (omega arith) (omega arith) in
      let r : PullResponse e = record {
        should_continue = goes_on e l c;
        receivers = receivers;
        senders = senders;
        senders_receivers_total = totalled.total;
      } in
      elim (reconstruct_shards-entries e r w') [
        | inr (_, bad) ↦ absurd (bad (whole e l in_place roomy fits c within r order1 order2))
        | inl (shards, mapped, entries, distinct) ↦ (
          r,
          _,
          shards,
          w',
          pulled,
          mapped,
          turned e l in_place roomy fits c within r order1 order2 shards entries distinct
              (reconstruct_shards-KeysFit e r shards w' mapped),
          refl,
          tables,
          serves',
        )
      ]

  follow-AtEnd :
      (fuel : ℕ) (c : Checkpoint) (w : World e)
      → Within e l c
      → Serves e w l
      → Totalled e w
      → left c < fuel
      → (c' : Checkpoint) × (w' : World e) × (follow_sqlite e fuel c c w ≡ (ok (finished c'), w'))
        × AtEnd c c'
        × Serves e w' l
        × (w'.tables ≡ w.tables)
  unfolding follow_sqlite
  follow-AtEnd zero c w within serves totalled enough = absurd (omega arith)
  follow-AtEnd (suc fuel) c w within serves totalled enough =
      let (r, server, shards, w1, pulled, mapped, counted, flag, tables, serves1) =
        turn_runs c w within serves totalled in
      let c1 = calculate_next_checkpoint (e.iterate shards) c c (length r.senders) in
      elim (Bool-cases (goes_on e l c)) [
        | inr over ↦ (
          c1,
          w1,
          bind-ok _ _ pulled ∙ bind-ok _ _ mapped ∙ stop r.should_continue _ _ w1 (flag ∙ over),
          subst (AtEnd c) (sym counted) (onward-AtEnd c within over),
          serves1,
          tables,
        )
        | inl more ↦
            let (c2, w2, runs, at_end, serves2, tables2) =
              follow-AtEnd fuel c1 w1
                (subst (Within e l) (sym counted) (onward-Within e l in_place roomy fits c within))
                serves1
                (record {
                  total = totalled.total;
                  stored = ap (λ t. t.senders_receivers_total) tables ∙ totalled.stored;
                  size = totalled.size;
                })
                (omega (arith, enough, left_less c within more, ap left counted)) in
            (
              c2,
              w2,
              bind-ok _ _ pulled
                  ∙ bind-ok _ _ mapped
                  ∙ go_on r.should_continue _ _ w1 (flag ∙ more)
                  ∙ runs,
              AtEnd-later c c2 more (subst (λ d. AtEnd d c2) counted at_end),
              serves2,
              tables2 ∙ tables,
            )
      ]

  begins_Within : Within e l default_checkpoint
  begins_Within = record {
    width = length-replicate {A = ℕ} 256 0;
    receivers = Inside-replicate e l 0 256;
    senders = omega arith;
  }

  -- In a world that serves a ledger and stores a total of 16 bytes, whatever its cache holds, where
  -- every receiver is in the shard that the Merkle forest gives it and no shard has more than 2^47:
  -- fuel above the number of all receivers and senders is enough for the loop from the beginning to
  -- end; it leaves the tables alone and the world serves the ledger still. The loop asks from each
  -- checkpoint that the plan of the request before leads to while the response says that more follows,
  -- and ends with the checkpoint that its last request leads to. That one is at the end of the senders,
  -- and either at the end of every shard, or the response to this last request gave exactly the amount
  -- of receivers and the shard that it stopped in ended there.
  pub follow_sqlite-AtEnd :
      (fuel : ℕ) (w : World e)
      → Serves e w l
      → Totalled e w
      → left default_checkpoint < fuel
      → (c' : Checkpoint) × (w' : World e) × (follow_sqlite e fuel default_checkpoint
            default_checkpoint w
          ≡ (ok (finished c'), w'))
        × AtEnd default_checkpoint c'
        × Serves e w' l
        × (w'.tables ≡ w.tables)
  follow_sqlite-AtEnd fuel w serves totalled enough =
      follow-AtEnd fuel default_checkpoint w begins_Within serves totalled enough
