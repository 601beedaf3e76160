-- ===== src/Sync/Follows.antt =====
-- The loop of src/indexer/sync.rs against a full node that offers a ledger.
use manta_indexer.Prelude.{
  refl, ℕ, zero, suc, ◌+◌, ◌-◌, ◌≤◌, ◌<◌, ◌≡◌, true, false, some, List, [], ◌++◌, length, filter,
}
use manta_indexer.External.{Bytes, External}
use manta_indexer.Types.{Checkpoint, Receiver, Sender, PullResponse}
use manta_indexer.Store.{World}
use manta_indexer.Ledger.{Ledger, Serves}
use manta_indexer.Ledger.Growth.{Marks}
use manta_indexer.Sync.{Node}
use manta_indexer.Sync.Entries.{belongs, stray}
use manta_indexer.Sync.Rounds.{grown}

module _ (e : External) where
  -- A ledger that another begins with, shard by shard.
  pub record IsPrefix (l whole : Ledger e) : Type 0 where
    pub shards : (s : ℕ) → (rest : List (Receiver e)) × (whole.shard s ≡ l.shard s ++ rest)
    pub senders : (rest : List (Sender e)) × (whole.senders ≡ l.senders ++ rest)

  -- The full node's promise: asked from the checkpoint of a part of its ledger for some amounts, it
  -- replies with at most that many of what follows, every receiver in its shard; it says that more
  -- follows only with something given, and that nothing follows only at the end.
  pub record Reply (whole l : Ledger e) (senders receivers : ℕ) (r : PullResponse e) : Type 0 where
    pub whole_shards : filter (stray e) r.receivers ≡ []
    pub follows : IsPrefix (grown e l r) whole
    pub size : length r.senders_receivers_total ≡ 16
    pub few_senders : length r.senders ≤ senders
    pub few_receivers : length r.receivers ≤ receivers
    pub moves : r.should_continue ≡ true → 0 < length r.receivers + length r.senders
    pub last : r.should_continue ≡ false → grown e l r ≡ whole

  abbrev pub Offers : Node e → Ledger e → Type 0
  Offers ws whole =
      (n : ℕ) (c : Checkpoint) (senders receivers : ℕ) (l : Ledger e)
      → 0 < senders
      → 0 < receivers
      → Marks e c l
      → IsPrefix l whole
      → (r : PullResponse e) × (ws n c senders receivers ≡ some r)
        × Reply whole l senders receivers r

  -- The receivers of the first shards.
  unfoldable pub count : ℕ → Ledger e → ℕ
  count zero l = 0
  count (suc n) l = count n l + length (l.shard n)

  -- What a part of a ledger lacks.
  abbrev pub left : Ledger e → Ledger e → ℕ
  left whole l = (count 256 whole + length whole.senders) - (count 256 l + length l.senders)

  pub grown-IsPrefix : (l : Ledger e) (r : PullResponse e) → IsPrefix l (grown e l r)
  grown-IsPrefix l r = record {
    shards = λ s. (filter (belongs e s) r.receivers, refl);
    senders = (r.senders, refl);
  }

  -- The loop's end: the whole ledger is served, and its checkpoint is at hand.
  pub record Synced (whole : Ledger e) (c : Checkpoint) (w : World e) : Type 0 where
    pub serves : Serves e w whole
    pub marks : Marks e c whole
    pub total : Bytes
    pub stored : w.tables.senders_receivers_total ≡ some total
    pub size : length total ≡ 16
