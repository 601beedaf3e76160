-- ===== src/Pull.antt =====
-- src/indexer/pull.rs: answering `pull_ledger_diff` from the cache and the local database.
pub mod Window
pub mod ShardSteps
pub mod OneShard
pub mod SenderSteps
pub mod Senders
pub mod Slices
pub mod Plan
pub mod ShardLoop
pub mod Receivers
pub mod Answers
pub mod Complete
use manta_indexer.Prelude.{
  ℕ, ◌+◌, ◌-◌, Bool, false, not, ◌||◌, Option, none, some, List, [], ◌∷◌, ◌++◌, length, set, get_or,
  range, ◌==◌, if◌then◌else◌,
}
use manta_indexer.Words.{add64, sub64}
use manta_indexer.External.{Bytes, Shard, Nullifier, External}
use manta_indexer.Types.{
  Checkpoint, ReceiverIndexArray, ReceiverChunk, SenderChunk, Receiver, Sender, PullResponse,
}
use manta_indexer.Store.{Action, codec, pure, or_raise, ◌>>=◌, ◌>>◌}
use manta_indexer.Db.{
  has_shard, get_batched_shards_by_idxs, has_nullifier, get_batched_nullifier_by_idxs,
  get_total_senders_receivers,
}
use manta_indexer.Cache.{
  get_batch_shard_receiver, get_batch_sender, put_batch_receiver, put_batch_sender,
}

-- `start..ending`, empty where the ending is not above the start
abbrev pub indices_between : ℕ → ℕ → List ℕ
indices_between start ending = range start (ending - start)

-- What the loop over the cached values writes: the chunk, the count of cached values and the
-- indices that go to the database.
pub record Scan (A : Type 0) : Type 0 where
  pub items : List A
  pub cached_values : ℕ
  pub query_db_indices : List ℕ

-- What the loop over the rows writes.
pub record Fetch (A : Type 0) : Type 0 where
  pub write_back : List (ℕ × Bytes)
  pub items : List A

module _ (e : External) where
  -- `for (offset, v) in cached.into_iter().enumerate()`, beside `all_indices[offset]`
  unfoldable pub scan_cached :
      {A : Type 0} → (Bytes → Option A) → List (Option Bytes) → List ℕ → Scan A → Action e (Scan A)
  unfolding ◌>>=◌
  scan_cached decode [] indices s = pure s
  scan_cached decode (v ∷ vs) [] s = pure s
  scan_cached decode (some v ∷ vs) (i ∷ is) s = do
    a ← or_raise (decode v) codec
    scan_cached decode vs is
        (record s { items = s.items ++ a ∷ []; cached_values = s.cached_values + 1 })
  scan_cached decode (none ∷ vs) (i ∷ is) s =
      scan_cached decode vs is (record s { query_db_indices = s.query_db_indices ++ i ∷ [] })

  unfoldable pub read_shards : List Shard → Fetch (Receiver e) → Action e (Fetch (Receiver e))
  unfolding ◌>>=◌
  read_shards [] f = pure f
  read_shards (shard ∷ shards) f = do
    utxo ← or_raise (e.utxo.decode shard.utxo) codec
    note ← or_raise (e.note.decode shard.full_incoming_note) codec
    read_shards shards (record f {
      write_back = f.write_back ++ (shard.utxo_index, e.receiver.encode (utxo, note)) ∷ [];
      items = f.items ++ (utxo, note) ∷ [];
    })

  -- The chunk with what was pulled, and whether the shard holds more.
  unfoldable pub pull_receivers_for_shard :
      ℕ → ℕ → ℕ → ReceiverChunk e → Action e (ReceiverChunk e × Bool)
  pull_receivers_for_shard shard_index receiver_index amount receivers = do
    let max_receiver_index = add64 receiver_index amount
    let all_indices = indices_between receiver_index max_receiver_index
    cached ← get_batch_shard_receiver e shard_index all_indices
    scan ←
        scan_cached e.receiver.decode cached all_indices
          (record { items = receivers; cached_values = 0; query_db_indices = [] })
    shards ← get_batched_shards_by_idxs e shard_index scan.query_db_indices
    fetch ← read_shards shards (record { write_back = []; items = scan.items })
    put_batch_receiver e shard_index fetch.write_back
    if length shards + scan.cached_values == amount
        then (do more ← has_shard e shard_index max_receiver_index; pure (fetch.items, more))
        else pure (fetch.items, false)

  pub record PullState : Type 0 where
    pub more_receivers : Bool
    pub next_indices : ReceiverIndexArray
    pub receivers : ReceiverChunk e
    pub remain : ℕ

  -- The loop of `pull_receivers` over the indices of the shards from `shard_index` on.
  unfoldable pub pull_shards : ℕ → ℕ → List ℕ → PullState → Action e PullState
  pull_shards max_amount shard_index [] s = pure s
  pull_shards max_amount shard_index (utxo_index ∷ indices) s = do
    present ← has_shard e shard_index utxo_index
    let skip = pull_shards max_amount (shard_index + 1) indices s
    if not present then skip else do
      let before_pull = length s.receivers
      (receivers, more) ← pull_receivers_for_shard shard_index utxo_index s.remain s.receivers
      let after_pull = length receivers
      let pulled : PullState = record s {
        more_receivers = s.more_receivers || more;
        next_indices =
            set s.next_indices shard_index (sub64 (add64 utxo_index after_pull) before_pull);
        receivers = receivers;
      }
      let next =
          pull_shards max_amount (shard_index + 1) indices
            (record pulled { remain = sub64 max_amount after_pull })
      if after_pull == max_amount then pure pulled else next

  unfoldable pub pull_receivers :
      ReceiverIndexArray → ℕ → Action e (Bool × ReceiverIndexArray × ReceiverChunk e)
  pull_receivers receiver_indices max_amount = do
    s ← pull_shards max_amount 0 receiver_indices (record {
      more_receivers = false;
      next_indices = receiver_indices;
      receivers = [];
      remain = max_amount;
    })
    pure (s.more_receivers, s.next_indices, s.receivers)

  unfoldable pub read_nullifiers : List Nullifier → Fetch (Sender e) → Action e (Fetch (Sender e))
  unfolding ◌>>=◌
  read_nullifiers [] f = pure f
  read_nullifiers (nullifier ∷ nullifiers) f = do
    nc ← or_raise (e.commitment.decode nullifier.nullifier_commitment) codec
    on ← or_raise (e.outgoing.decode nullifier.outgoing_note) codec
    read_nullifiers nullifiers (record f {
      write_back = f.write_back ++ (nullifier.idx, e.sender.encode (nc, on)) ∷ [];
      items = f.items ++ (nc, on) ∷ [];
    })

  unfoldable pub pull_senders : ℕ → ℕ → Action e (Bool × ℕ × SenderChunk e)
  pull_senders sender_index amount = do
    let all_indices = indices_between sender_index (add64 sender_index amount)
    cached ← get_batch_sender e all_indices
    scan ←
        scan_cached e.sender.decode cached all_indices
          (record { items = []; cached_values = 0; query_db_indices = [] })
    nullifiers ← get_batched_nullifier_by_idxs e scan.query_db_indices
    fetch ← read_nullifiers nullifiers (record { write_back = []; items = scan.items })
    put_batch_sender e fetch.write_back
    more ← has_nullifier e (add64 sender_index amount)
    pure (more, add64 sender_index amount, fetch.items)

  unfoldable pub pull_ledger_diff : Checkpoint → ℕ → ℕ → Action e (PullResponse e × Checkpoint)
  pull_ledger_diff checkpoint max_receivers max_senders = do
    (more_receivers, next_receiver_index, receivers) ←
        pull_receivers checkpoint.receiver_index max_receivers
    (more_senders, next_sender_index, senders) ← pull_senders checkpoint.sender_index max_senders
    total ← get_total_senders_receivers e
    pure (
      record {
        should_continue = more_receivers || more_senders;
        receivers = receivers;
        senders = senders;
        senders_receivers_total = total;
      },
      record { receiver_index = next_receiver_index; sender_index = next_sender_index },
    )

-- The loop of `calculate_next_checkpoint` over the shards of a response.
unfoldable pub advance_receivers {ℓ} :
    {A : Type ℓ} → List (ℕ × List A) → ReceiverIndexArray → ReceiverIndexArray → ReceiverIndexArray
advance_receivers [] previous next = next
advance_receivers ((index, utxos) ∷ shards) previous next =
    advance_receivers shards previous
      (set next index (add64 (get_or previous index 0) (length utxos)))

unfoldable pub calculate_next_checkpoint {ℓ} :
    {A : Type ℓ} → List (ℕ × List A) → Checkpoint → Checkpoint → ℕ → Checkpoint
unfolding advance_receivers
calculate_next_checkpoint previous_shards previous_checkpoint next_checkpoint sender_index =
    record {
      sender_index = add64 next_checkpoint.sender_index sender_index;
      receiver_index =
          advance_receivers previous_shards previous_checkpoint.receiver_index
            next_checkpoint.receiver_index;
    }
