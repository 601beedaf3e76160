-- ===== src/Pull/Answers.antt =====
-- `pull_ledger_diff` (src/indexer/pull.rs) in a world that serves a ledger, and the limit that the
-- RPC method of src/indexer/mod.rs puts on it.
use mathlib.Core.List.{Permᴰ}
use manta_indexer.Prelude.{
  ℕ, ◌+◌, ◌^◌, ◌≤◌, ◌≡◌, ap, ◌∙◌, ◌||◌, some, arith, length, take, drop, ltb, All,
}
use manta_indexer.External.{Bytes, External}
use manta_indexer.Types.{Checkpoint, ReceiverChunk, SenderChunk}
use manta_indexer.Store.{World, ok}
use manta_indexer.Store.Bind.{bind-ok}
use manta_indexer.Db.Calm.{get_total-calm}
use manta_indexer.Ledger.{Ledger, Fits, Serves}
use manta_indexer.Pull.{pull_ledger_diff}
use manta_indexer.Pull.Plan.{takes, cursors, cut_short}
use manta_indexer.Pull.Slices.{pull_senders-slice}
use manta_indexer.Pull.Receivers.{pull_receivers-plan}

module _ (e : External) (l : Ledger e) where
  -- In a world that serves a ledger and stores a total of 16 bytes, whatever its cache holds, for a
  -- checkpoint of at most 256 shard indices and for indices and amounts of at most 2^47: the call
  -- succeeds; its receivers are those of the plan and its senders those of the window, none missing
  -- and none twice; the total is the stored one; should_continue holds exactly where the shard that
  -- used up the amount of receivers goes on or a sender stands after the window; the next checkpoint
  -- moves each shard by what it gave and the senders by the amount asked for, given or not; it leaves
  -- the tables alone; and the world still serves the ledger.
  pub pull_ledger_diff-plan :
      (c : Checkpoint) (max_receivers max_senders : ℕ) (total : Bytes) (w : World e)
      → Fits e l
      → Serves e w l
      → w.tables.senders_receivers_total ≡ some total
      → length total ≡ 16
      → length c.receiver_index ≤ 256
      → All (λ i. i ≤ 2 ^ 47) c.receiver_index
      → c.sender_index ≤ 2 ^ 47
      → max_receivers ≤ 2 ^ 47
      → max_senders ≤ 2 ^ 47
      → (receivers : ReceiverChunk e) × (senders : SenderChunk e) × (w' : World e)
        × (pull_ledger_diff e c max_receivers max_senders w ≡ (
          ok (
            record {
              should_continue =
                  cut_short e l max_receivers 0 c.receiver_index
                  || ltb (c.sender_index + max_senders) (length l.senders);
              receivers = receivers;
              senders = senders;
              senders_receivers_total = total;
            },
            record {
              receiver_index = cursors e l max_receivers 0 c.receiver_index;
              sender_index = c.sender_index + max_senders;
            },
          ),
          w',
        ))
        × Permᴰ receivers (takes e l max_receivers 0 c.receiver_index)
        × Permᴰ senders (take max_senders (drop c.sender_index l.senders))
        × (w'.tables ≡ w.tables)
        × Serves e w' l
  unfolding pull_ledger_diff
  pull_ledger_diff-plan c max_receivers max_senders total w fits serves stored size shards small
        sender_small receivers_fit senders_fit =
      let (receivers, w1, runs1, order1, tables1, serves1) =
        pull_receivers-plan e l c.receiver_index max_receivers w fits serves receivers_fit shards
          small in
      let (senders, w2, runs2, order2, tables2, serves2) =
        pull_senders-slice e l c.sender_index max_senders w1 fits serves1 (omega arith) in
      (
        receivers,
        senders,
        w2,
        bind-ok _ _ runs1
            ∙ bind-ok _ _ runs2
            ∙ bind-ok _ _ (
                get_total-calm e w2 serves2.calm total
                  (ap (λ t. t.senders_receivers_total) (tables2 ∙ tables1) ∙ stored) size),
        order1,
        order2,
        tables2 ∙ tables1,
        serves2,
      )
