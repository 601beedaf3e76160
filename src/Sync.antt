-- ===== src/Sync.antt =====
-- src/indexer/sync.rs: following the full node. A round asks the node for a response, stores it in
-- one transaction and, after the commit, in the cache; the rounds go on while the node says so.
pub mod Atomic
pub mod Checkpoints
pub mod Entries
pub mod Maps
pub mod Inserts
pub mod Commits
pub mod Stored
pub mod Cached
pub mod Keys
pub mod Rounds
pub mod Start
pub mod Follows
pub mod Answers
pub mod Job
use manta_indexer.Prelude.{
  ℕ, zero, suc, ◌+◌, ◌*◌, min, Bool, not, Option, List, [], ◌∷◌, ◌++◌, length, set, get_or, ◌==◌,
  if◌then◌else◌,
}
use manta_indexer.Words.{add64}
use manta_indexer.External.{Bytes, External}
use manta_indexer.Types.{
  Checkpoint, ReceiverIndexArray, ReceiverChunk, SenderChunk, Receiver, PullResponse,
}
use manta_indexer.Store.{
  Action, indexer, bad_utxo, json_rpsee, pure, or_raise, execute, in_transaction, ◌>>=◌, ◌>>◌,
}
use manta_indexer.Db.{
  insert_one_shard, insert_one_nullifier, get_len_of_nullifier, get_latest_check_point,
  update_or_insert_total_senders_receivers,
}
use manta_indexer.Cache.{put_batch_receiver, put_batch_sender}
use manta_indexer.Pull.{calculate_next_checkpoint, pull_ledger_diff}

abbrev pub max_senders : ℕ
max_senders = 1024 * 4

abbrev pub max_receivers : ℕ
max_receivers = 1024 * 4

-- `HashMap<u8, Vec<_>>`, one entry for a key.
abbrev pub Shards : External → Type 0
Shards e = List (ℕ × ReceiverChunk e)

-- `increasing_checkpoint`, over the entries as they are iterated.
unfoldable pub increase_receivers {ℓ} :
    {A : Type ℓ} → List (ℕ × List A) → ReceiverIndexArray → ReceiverIndexArray
increase_receivers [] indices = indices
increase_receivers ((idx, utxos) ∷ shards) indices =
    increase_receivers shards (set indices idx (add64 (get_or indices idx 0) (length utxos)))

unfoldable pub increasing_checkpoint {ℓ} :
    {A : Type ℓ} → Checkpoint → ℕ → List (ℕ × List A) → Checkpoint
unfolding increase_receivers
increasing_checkpoint checkpoint incremental_sender incremental_receiver = record {
  sender_index = add64 checkpoint.sender_index incremental_sender;
  receiver_index = increase_receivers incremental_receiver checkpoint.receiver_index;
}

-- `.entry(shard_index).or_default().push(receiver)`
unfoldable pub push_entry {ℓ} : {A : Type ℓ} → ℕ → A → List (ℕ × List A) → List (ℕ × List A)
push_entry shard_index x [] = (shard_index, x ∷ []) ∷ []
push_entry shard_index x ((key, xs) ∷ entries) =
    if key == shard_index
    then (key, xs ++ x ∷ []) ∷ entries
    else (key, xs) ∷ push_entry shard_index x entries

-- What a loop over the node's responses ended with; `running` is a loop that goes on.
pub data Progress : Type 0 where
  finished running : Checkpoint → Progress

module _ (e : External) where
  -- The full node: its reply to the request number `n`, by the name of no other method; `none` is
  -- a failed request. The parameters are positional.
  abbrev pub Node : Type 0
  Node = ℕ → Checkpoint → ℕ → ℕ → Option (PullResponse e)

  unfoldable pub synchronize_ledger : Node → ℕ → Checkpoint → ℕ → ℕ → Action e (PullResponse e)
  synchronize_ledger ws n checkpoint max_sender_count max_receiver_count =
      or_raise
        (ws n checkpoint (min max_sender_count max_senders) (min max_receiver_count max_receivers))
        json_rpsee

  -- The loop over the receivers, from a map that holds `shards`.
  unfoldable pub reconstruct : List (Receiver e) → Shards e → Action e (Shards e)
  unfolding ◌>>=◌
  reconstruct [] shards = pure shards
  reconstruct (receiver ∷ receivers) shards = do
    shard_index ← or_raise (e.tree_index receiver.0) (indexer bad_utxo)
    reconstruct receivers (push_entry shard_index receiver shards)

  unfoldable pub reconstruct_shards_from_pull_response : PullResponse e → Action e (Shards e)
  unfolding reconstruct
  reconstruct_shards_from_pull_response pull_response = reconstruct pull_response.receivers []

  -- The inner loop of "update shards", from one offset on.
  unfoldable pub insert_shard : ℕ → ℕ → List (Receiver e) → Action e (Unit {0})
  insert_shard shard_index utxo_index [] = pure tt
  insert_shard shard_index utxo_index ((utxo, note) ∷ contents) =
      insert_one_shard e shard_index utxo_index utxo note
      >> insert_shard shard_index (add64 utxo_index 1) contents

  unfoldable pub insert_shards : Checkpoint → Shards e → Action e (Unit {0})
  insert_shards ckp [] = pure tt
  insert_shards ckp ((shard_index, shard) ∷ shards) =
      insert_shard shard_index (get_or ckp.receiver_index shard_index 0) shard
      >> insert_shards ckp shards

  unfoldable pub insert_nullifiers : ℕ → SenderChunk e → Action e (Unit {0})
  insert_nullifiers i [] = pure tt
  insert_nullifiers i ((nc, on) ∷ nullifiers) =
      insert_one_nullifier e i nc on >> insert_nullifiers (add64 i 1) nullifiers

  -- A statement that only may fail: `acquire`, `begin` and `commit`.
  abbrev pub may_fail : Action e (Unit {0})
  may_fail = execute (λ t. t)

  -- "combine 3 updates into a transaction"; the count of nullifiers that it began with.
  unfoldable pub store_response : Checkpoint → PullResponse e → Shards e → Action e ℕ
  store_response ckp resp shards =
      may_fail
      >> in_transaction (do
        may_fail
        insert_shards ckp (e.iterate shards)
        nullifier_checkpoint ← get_len_of_nullifier e
        insert_nullifiers nullifier_checkpoint resp.senders
        update_or_insert_total_senders_receivers e resp.senders_receivers_total
        may_fail
        pure nullifier_checkpoint)

  abbrev pub batch_of : {A : Type 0} → (A → Bytes) → ℕ → List A → List (ℕ × Bytes)
  batch_of encode i [] = []
  batch_of encode i (x ∷ xs) = (i, encode x) ∷ batch_of encode (add64 i 1) xs

  unfoldable pub cache_shards : Checkpoint → Shards e → Action e (Unit {0})
  cache_shards ckp [] = pure tt
  cache_shards ckp ((shard_index, items) ∷ shards) =
      put_batch_receiver e shard_index
        (batch_of e.receiver.encode (get_or ckp.receiver_index shard_index 0) items)
      >> cache_shards ckp shards

  -- "update lru cache"
  unfoldable pub cache_response : Checkpoint → ℕ → PullResponse e → Shards e → Action e (Unit {0})
  cache_response ckp nullifier_checkpoint resp shards =
      cache_shards ckp (e.iterate shards)
      >> put_batch_sender e (batch_of e.sender.encode nullifier_checkpoint resp.senders)

  -- One turn of the loop: the next checkpoint, and whether the node has more.
  unfoldable pub sync_round : Node → ℕ → ℕ × ℕ → Bool → Checkpoint → Action e (Checkpoint × Bool)
  sync_round ws n (max_sender_count, max_receiver_count) refresh_cache ckp = do
    resp ← synchronize_ledger ws n ckp max_sender_count max_receiver_count
    shards ← reconstruct_shards_from_pull_response resp
    nullifier_checkpoint ← store_response ckp resp shards
    if refresh_cache then cache_response ckp nullifier_checkpoint resp shards else pure tt
    pure (increasing_checkpoint ckp (length resp.senders) (e.iterate shards), resp.should_continue)

  -- The loop, for at most `fuel` turns from request `n` on.
  unfoldable pub sync_rounds : Node → ℕ → ℕ → ℕ × ℕ → Bool → Checkpoint → Action e Progress
  sync_rounds ws zero n max_count refresh_cache ckp = pure (running ckp)
  sync_rounds ws (suc fuel) n max_count refresh_cache ckp = do
    (next, should_continue) ← sync_round ws n max_count refresh_cache ckp
    let rest = sync_rounds ws fuel (n + 1) max_count refresh_cache next
    if not should_continue then pure (finished next) else rest

  unfoldable pub sync_shards_from_full_node : Node → ℕ → ℕ → ℕ × ℕ → Bool → Action e Progress
  sync_shards_from_full_node ws fuel n max_count refresh_cache = do
    ckp ← get_latest_check_point e
    sync_rounds ws fuel n max_count refresh_cache ckp

  -- `pull_ledger_diff_from_local_node` and `get_check_point_from_node`: the loop that follows the
  -- node with `calculate_next_checkpoint` and stores nothing.
  unfoldable pub follow_node : Node → ℕ → ℕ → Checkpoint → Checkpoint → Action e Progress
  follow_node ws zero n current next = pure (running next)
  follow_node ws (suc fuel) n current next = do
    resp ← synchronize_ledger ws n next (1024 * 15) (1024 * 15)
    shards ← reconstruct_shards_from_pull_response resp
    let after = calculate_next_checkpoint (e.iterate shards) current next (length resp.senders)
    let rest = follow_node ws fuel (n + 1) after after
    if not resp.should_continue then pure (finished after) else rest

  -- `pull_ledger_diff_from_sqlite`
  unfoldable pub follow_sqlite : ℕ → Checkpoint → Checkpoint → Action e Progress
  follow_sqlite zero current next = pure (running next)
  follow_sqlite (suc fuel) current next = do
    (resp, _) ← pull_ledger_diff e next (1024 * 15) (1024 * 15)
    shards ← reconstruct_shards_from_pull_response resp
    let after = calculate_next_checkpoint (e.iterate shards) current next (length resp.senders)
    let rest = follow_sqlite fuel after after
    if not resp.should_continue then pure (finished after) else rest
