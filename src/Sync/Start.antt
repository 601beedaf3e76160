-- ===== src/Sync/Start.antt =====
-- `get_latest_check_point` (src/db.rs), from which src/indexer/sync.rs starts.
use manta_indexer.Prelude.{
  ℕ, zero, suc, ◌+◌, ◌^◌, ◌<◌, ◌≡◌, refl, sym, ap, ◌∙◌, arith, length, get_or, set, numbered,
  length-map, length-numbered, length-set, length-replicate, get_or-set_self, get_or-set_ne,
  Bool-cases, inl, inr, ◌==◌,
}
use manta_indexer.External.{External}
use manta_indexer.Types.{Checkpoint, default_checkpoint, forest_width}
use manta_indexer.Store.{World, ok}
use manta_indexer.Store.Bind.{bind-ok}
use manta_indexer.Db.{count_of_utxo, count_shards, get_latest_check_point}
use manta_indexer.Db.Calm.{count_of_utxo-calm, get_len_of_nullifier-calm}
use manta_indexer.Ledger.{Ledger, Serves, shard_row, nullifier_row}
use manta_indexer.Ledger.Growth.{Marks}

module _ (e : External) (l : Ledger e) (w : World e) (serves : Serves e w l) where
  counted : (s : ℕ) → count_of_utxo e s w ≡ (ok (length (l.shard s)), w)
  counted s =
      count_of_utxo-calm e w serves.calm s
      ∙ ap (λ n. (ok n, w))
          (ap length (serves.stores.shards s)
            ∙ length-map (shard_row e s) (numbered 0 (l.shard s))
            ∙ length-numbered 0 (l.shard s))

  -- A checkpoint that is right for the shards below `s`.
  pub record Below (s : ℕ) (c : Checkpoint) : Type 0 where
    pub width : length c.receiver_index ≡ 256
    pub right : (j : ℕ) → j < s → get_or c.receiver_index j 0 ≡ length (l.shard j)

  one_more :
      (s : ℕ) (c : Checkpoint)
      → s < 256
      → Below s c
      → Below (s + 1) (record c { receiver_index = set c.receiver_index s (length (l.shard s)) })
  one_more s c inside below = record {
    width = length-set c.receiver_index s (length (l.shard s)) ∙ below.width;
    right = λ j lt. elim (Bool-cases (s == j)) [
      | inl same ↦
          let here : s ≡ j = ground (arith, same) in
          rw (sym here)
            (get_or-set_self c.receiver_index s (length (l.shard s)) 0 (omega (arith, below.width)))
      | inr other ↦
          get_or-set_ne c.receiver_index s j (length (l.shard s)) 0 (λ q. ground (arith, q, other))
          ∙ below.right j (ground (arith, other, lt))
    ];
  }

  count_shards-Below :
      (left s : ℕ) (c : Checkpoint)
      → s + left ≡ 256
      → Below s c
      → (c' : Checkpoint) × (count_shards e left s c w ≡ (ok c', w)) × Below 256 c'
  unfolding count_shards
  count_shards-Below zero s c total below =
      (c, refl, record { width = below.width; right = λ j lt. below.right j (omega arith) })
  count_shards-Below (suc left) s c total below =
      let (c', runs, done) =
        count_shards-Below left (s + 1)
          (record c { receiver_index = set c.receiver_index s (length (l.shard s)) }) (omega arith)
          (one_more s c (omega arith) below) in
      (c', bind-ok _ _ (counted s) ∙ runs, done)

  start_Below : Below 0 default_checkpoint
  start_Below = record {
    width = length-replicate {A = ℕ} 256 0;
    right = λ j lt. absurd (omega arith);
  }

  nullifiers_counted : length w.tables.nullifier ≡ length l.senders
  nullifiers_counted =
      ap length serves.stores.nullifiers
      ∙ length-map (nullifier_row e) (numbered 0 l.senders)
      ∙ length-numbered 0 l.senders

  -- In a world that serves a ledger of fewer than 2^32 senders: the call gives the checkpoint of the
  -- ledger, all of its 256 shards and the senders, and changes nothing.
  pub get_latest_check_point-Marks :
      length l.senders < 2 ^ 32
      → (c : Checkpoint) × (get_latest_check_point e w ≡ (ok c, w)) × Marks e c l
  unfolding get_latest_check_point
  get_latest_check_point-Marks few =
      let (c, runs, below) =
        count_shards-Below forest_width 0 default_checkpoint refl start_Below in
      (
        record c { sender_index = length l.senders },
        bind-ok _ _ runs
            ∙ bind-ok _ _ (
                get_len_of_nullifier-calm e w serves.calm (omega (arith, nullifiers_counted))
                ∙ ap (λ n. (ok n, w)) nullifiers_counted),
        record { width = below.width; shards = below.right; senders = refl },
      )
