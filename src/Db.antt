-- ===== src/Db.antt =====
-- src/db.rs: the statements over the tables `shards`, `nullifier` and `senders_receivers_total`.
-- `shards` has no unique key, so `INSERT OR REPLACE` always adds a row there; `nullifier` has the
-- primary key `idx`, so there it replaces the row of that index.
pub mod Calm
pub mod Writes
pub mod Shards
use manta_indexer.Prelude.{
  ℕ, zero, suc, ◌+◌, ◌^◌, Bool, true, false, not, ◌&&◌, Option, none, some, List, [], ◌∷◌, ◌++◌,
  length, filter, set, member, ltb, leb, ◌==◌, if◌then◌else◌,
}
use manta_indexer.Words.{signed_rank}
use manta_indexer.External.{Bytes, Shard, Nullifier, External}
use manta_indexer.Types.{Checkpoint, default_checkpoint, forest_width, SenderChunk}
use manta_indexer.Store.{
  Action, Result, ok, err, indexer, codec, panicked, decoded_error, wrong_little_endian_array, pure,
  raise, or_raise, statement, query, execute, fetch_one, ◌>>=◌,
}

abbrev pub at_index : ℕ → ℕ → Shard → Bool
at_index shard_index utxo_index r = r.shard_index == shard_index && r.utxo_index == utxo_index

abbrev pub in_shard : ℕ → Shard → Bool
in_shard shard_index r = r.shard_index == shard_index

abbrev pub has_idx : ℕ → Nullifier → Bool
has_idx n r = r.idx == n

-- `match one { Ok(_) => true, Err(_) => false }`
abbrev pub succeeded : {A : Type 0} → Result A → Bool
succeeded (ok _) = true
succeeded (err _) = false

module _ (e : External) where
  open e.sqlite use {arrange_shards, arrange_nullifiers, next_rowid}

  unfoldable pub has_shard : ℕ → ℕ → Action e Bool
  unfolding fetch_one
  has_shard shard_index utxo_index w =
      let (one, w') =
        fetch_one (λ t. arrange_shards (filter (at_index shard_index utxo_index) t.shards)) w in
      (ok (succeeded one), w')

  unfoldable pub get_one_shard : ℕ → ℕ → Action e Shard
  unfolding fetch_one
  get_one_shard shard_index utxo_index =
      fetch_one λ t. arrange_shards (filter (at_index shard_index utxo_index) t.shards)

  -- Indices from the beginning up to, and without, the ending, compared as `i64`.
  unfoldable pub get_batched_shards : ℕ → ℕ → ℕ → Action e (List Shard)
  unfolding statement
  get_batched_shards shard_index utxo_index_beginning utxo_index_ending = query λ t.
      arrange_shards (
        filter
          (λ r.
            in_shard shard_index r
            && leb (signed_rank utxo_index_beginning) (signed_rank r.utxo_index)
            && ltb (signed_rank r.utxo_index) (signed_rank utxo_index_ending))
          t.shards)

  unfoldable pub get_batched_shards_by_idxs : ℕ → List ℕ → Action e (List Shard)
  unfolding statement
  get_batched_shards_by_idxs shard_index [] = pure []
  get_batched_shards_by_idxs shard_index (i ∷ is) = query λ t.
      arrange_shards (filter (λ r. in_shard shard_index r && member r.utxo_index (i ∷ is)) t.shards)

  unfoldable pub insert_one_shard : ℕ → ℕ → e.Utxo → e.FullIncomingNote → Action e (Unit {0})
  unfolding statement
  insert_one_shard shard_index utxo_index utxo note = execute λ t. record t {
    shards =
        t.shards
        ++ record {
          shard_index = shard_index;
          utxo_index = utxo_index;
          utxo = e.utxo.encode utxo;
          full_incoming_note = e.note.encode note;
        }
          ∷ [];
  }

  unfoldable pub insert_one_nullifier :
      ℕ → e.NullifierCommitment → e.OutgoingNote → Action e (Unit {0})
  unfolding statement
  insert_one_nullifier nullifier_index nc on = execute λ t. record t {
    nullifier =
        filter (λ r. not (has_idx nullifier_index r)) t.nullifier
        ++ record {
          idx = nullifier_index;
          nullifier_commitment = e.commitment.encode nc;
          outgoing_note = e.outgoing.encode on;
        }
          ∷ [];
  }

  unfoldable pub append_nullifier : e.NullifierCommitment → e.OutgoingNote → Action e (Unit {0})
  unfolding statement
  append_nullifier nc on = execute λ t. record t {
    nullifier =
        t.nullifier
        ++ record {
          idx = next_rowid t.nullifier;
          nullifier_commitment = e.commitment.encode nc;
          outgoing_note = e.outgoing.encode on;
        }
          ∷ [];
  }

  -- `get::<u32, _>` panics on a count that is no `u32`.
  unfoldable pub get_len_of_nullifier : Action e ℕ
  unfolding statement ◌>>=◌
  get_len_of_nullifier = do
    count ← query λ t. length t.nullifier
    if ltb count (2 ^ 32) then pure count else raise panicked

  -- `SELECT COUNT(*) FROM shards WHERE shard_index = ?`
  unfoldable pub count_of_utxo : ℕ → Action e ℕ
  unfolding statement
  count_of_utxo shard_index = query λ t. length (filter (in_shard shard_index) t.shards)

  -- The loop over the shards: `left` of them from `shard_index` on.
  unfoldable pub count_shards : ℕ → ℕ → Checkpoint → Action e Checkpoint
  count_shards zero shard_index ckp = pure ckp
  count_shards (suc left) shard_index ckp = do
    count ← count_of_utxo shard_index
    count_shards left (shard_index + 1)
        (record ckp { receiver_index = set ckp.receiver_index shard_index count })

  unfoldable pub get_latest_check_point : Action e Checkpoint
  get_latest_check_point = do
    ckp ← count_shards forest_width 0 default_checkpoint
    len ← get_len_of_nullifier
    pure (record ckp { sender_index = len })

  unfoldable pub has_nullifier : ℕ → Action e Bool
  unfolding fetch_one
  has_nullifier nullifier_index w =
      let (one, w') =
        fetch_one (λ t. arrange_nullifiers (filter (has_idx nullifier_index) t.nullifier)) w in
      (ok (succeeded one), w')

  -- A row of `nullifier` as the commitment and note that it holds.
  unfoldable pub read_nullifier : Nullifier → Action e (e.NullifierCommitment × e.OutgoingNote)
  unfolding ◌>>=◌
  read_nullifier r = do
    nc ← or_raise (e.commitment_of_bytes r.nullifier_commitment) (indexer decoded_error)
    on ← or_raise (e.outgoing.decode r.outgoing_note) codec
    pure (nc, on)

  unfoldable pub get_one_nullifier : ℕ → Action e (e.NullifierCommitment × e.OutgoingNote)
  unfolding fetch_one read_nullifier ◌>>=◌
  get_one_nullifier nullifier_index = do
    r ← fetch_one λ t. arrange_nullifiers (filter (has_idx nullifier_index) t.nullifier)
    read_nullifier r

  unfoldable pub read_nullifiers : List Nullifier → Action e (SenderChunk e)
  unfolding read_nullifier ◌>>=◌
  read_nullifiers [] = pure []
  read_nullifiers (r ∷ rs) = do x ← read_nullifier r; xs ← read_nullifiers rs; pure (x ∷ xs)

  unfoldable pub get_batched_nullifier : ℕ → ℕ → Action e (SenderChunk e)
  unfolding statement read_nullifiers ◌>>=◌
  get_batched_nullifier nullifier_beginning nullifier_ending = do
    rows ← query λ t. arrange_nullifiers (
        filter
          (λ r.
            leb (signed_rank nullifier_beginning) (signed_rank r.idx)
            && ltb (signed_rank r.idx) (signed_rank nullifier_ending))
          t.nullifier)
    read_nullifiers rows

  unfoldable pub get_batched_nullifier_by_idxs : List ℕ → Action e (List Nullifier)
  unfolding statement
  get_batched_nullifier_by_idxs [] = pure []
  get_batched_nullifier_by_idxs (i ∷ is) =
      query λ t. arrange_nullifiers (filter (λ r. member r.idx (i ∷ is)) t.nullifier)

  unfoldable pub update_or_insert_total_senders_receivers : Bytes → Action e (Unit {0})
  unfolding statement
  update_or_insert_total_senders_receivers new_total =
      execute λ t. record t { senders_receivers_total = some new_total }

  abbrev pub total_rows : Option Bytes → List Bytes
  total_rows none = []
  total_rows (some v) = v ∷ []

  -- The stored total, which must have the 16 bytes of a `u128`.
  unfoldable pub get_total_senders_receivers : Action e Bytes
  unfolding fetch_one ◌>>=◌
  get_total_senders_receivers = do
    total ← fetch_one λ t. total_rows t.senders_receivers_total
    if length total == 16 then pure total else raise (indexer wrong_little_endian_array)
