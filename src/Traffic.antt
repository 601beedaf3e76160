-- ===== src/Traffic.antt =====
-- Pulls of any clients (src/indexer/pull.rs) between the rounds of the synchronization
-- (src/indexer/sync.rs), in any order. A pull and a round are one step each.
pub mod Answers
use mathlib.Core.List.{Permᴰ}
use mathlib.Core.Path.{subst}
use manta_indexer.Prelude.{
  ℕ, ◌+◌, ◌^◌, ◌≤◌, ◌≡◌, refl, sym, ap, ◌∙◌, ◌||◌, All, Bool, Option, none, some, List, [], ◌++◌,
  append-nil, append_assoc, length, take, drop, filter, ltb, min,
}
use manta_indexer.External.{Bytes, External}
use manta_indexer.Types.{Checkpoint, ReceiverChunk, SenderChunk, PullResponse}
use manta_indexer.Store.{World, Result, ok, err, or_raise, json_rpsee}
use manta_indexer.Store.Bind.{bind-err}
use manta_indexer.Ledger.{Ledger, Fits, Serves}
use manta_indexer.Ledger.Growth.{Marks}
use manta_indexer.Db.{get_latest_check_point}
use manta_indexer.Pull.{pull_ledger_diff}
use manta_indexer.Pull.Plan.{takes, cursors, cut_short}
use manta_indexer.Pull.Answers.{pull_ledger_diff-plan}
use manta_indexer.Sync.{Node, synchronize_ledger, sync_round, max_senders, max_receivers}
use manta_indexer.Sync.Entries.{belongs, stray}
use manta_indexer.Sync.Rounds.{grown, sync_round-extends}
use manta_indexer.Sync.Start.{get_latest_check_point-Marks}
use manta_indexer.Sync.Follows.{IsPrefix}
use manta_indexer.Client.Follows.{Totalled}

-- A request whose indices and amounts are at most 2^47.
pub record Bounded (c : Checkpoint) (most_receivers most_senders : ℕ) : Type 0 where
  pub shards : length c.receiver_index ≤ 256
  pub indices : All (λ i. i ≤ 2 ^ 47) c.receiver_index
  pub sender : c.sender_index ≤ 2 ^ 47
  pub receivers : most_receivers ≤ 2 ^ 47
  pub senders : most_senders ≤ 2 ^ 47

module _ (e : External) where
  -- The world, the checkpoint of the synchronization, and the ledger that the node gave so far.
  pub record State : Type 0 where
    pub ledger : Ledger e
    pub checkpoint : Checkpoint
    pub world : World e

  abbrev pub after_round : State → Ledger e → Result (Checkpoint × Bool) × World e → State
  after_round s l (ok (c, more), w) = record { ledger = l; checkpoint = c; world = w }
  after_round s l (err x, w) = record s { world = w }

  abbrev pub after_count : State → Result Checkpoint × World e → State
  after_count s (ok c, w) = record s { checkpoint = c; world = w }
  after_count s (err x, w) = record s { world = w }

  abbrev pub asks : Node e → ℕ → ℕ × ℕ → State → Option (PullResponse e)
  asks ws n max_count s =
      ws n s.checkpoint (min max_count.0 max_senders) (min max_count.1 max_receivers)

  -- A pull; a round that the node replies to with receivers that all belong to a shard, where the grown
  -- ledger fits; a round that it does not reply to; or a synchronization that begins anew.
  pub data Step : State → State → Type 0 where
    pulled :
        (s : State) (c : Checkpoint) (most_receivers most_senders : ℕ)
        → Bounded c most_receivers most_senders
        → Step s (record s { world = (pull_ledger_diff e c most_receivers most_senders s.world).1 })
    synced :
        (s : State) (ws : Node e) (n : ℕ) (max_count : ℕ × ℕ) (refresh_cache : Bool)
        (r : PullResponse e)
        → asks ws n max_count s ≡ some r
        → filter (stray e) r.receivers ≡ []
        → Fits e (grown e s.ledger r)
        → length r.senders_receivers_total ≡ 16
        → Step s (
            after_round s
              (grown e s.ledger r)
              (sync_round e ws n max_count refresh_cache s.checkpoint s.world))
    unanswered :
        (s : State) (ws : Node e) (n : ℕ) (max_count : ℕ × ℕ) (refresh_cache : Bool)
        → asks ws n max_count s ≡ none
        → Step s (
            after_round s s.ledger (sync_round e ws n max_count refresh_cache s.checkpoint s.world))
    begun : (s : State) → Step s (after_count s (get_latest_check_point e s.world))

  pub data Reach : State → State → Type 0 where
    start : (s : State) → Reach s s
    step : (s t u : State) → Reach s t → Step t u → Reach s u
