-- ===== src/Sync/Commits.antt =====
-- The whole transaction of src/indexer/sync.rs where no statement fails.
use manta_indexer.Prelude.{
  ◌+◌, ◌^◌, ◌<◌, ◌≡◌, ap, ◌∙◌, some, [], ◌++◌, map, arith, length, numbered, length-map,
  length-numbered,
}
use manta_indexer.External.{External}
use manta_indexer.Types.{Checkpoint, SenderChunk, PullResponse}
use manta_indexer.Store.{World, ok}
use manta_indexer.Store.Bind.{bind-ok, in_transaction-ok}
use manta_indexer.Store.Calm.{execute-calm}
use manta_indexer.Db.{get_len_of_nullifier, update_or_insert_total_senders_receivers}
use manta_indexer.Db.Calm.{get_len_of_nullifier-calm}
use manta_indexer.Ledger.{nullifier_row}
use manta_indexer.Sync.{Shards, store_response}
use manta_indexer.Sync.Inserts.{
  with_shards, with_nullifiers, rows_of, Small, insert_shards-calm, insert_nullifiers-calm,
}

module _ (e : External) (c : Checkpoint) (r : PullResponse e) (shards : Shards e)
    (ys : SenderChunk e) (w : World e) (calm : w.faults ≡ [])
    (full : w.tables.nullifier ≡ map (nullifier_row e) (numbered 0 ys)) (few : length ys < 2 ^ 32)
    (small : Small e c (e.iterate shards)) (more : length ys + length r.senders < 2 ^ 64) where
  abbrev rows_in : World e
  rows_in = with_shards e w (rows_of e c (e.iterate shards))

  -- The tables that the transaction leaves.
  abbrev pub stored : World e
  stored = record w {
    tables = record {
      shards = w.tables.shards ++ rows_of e c (e.iterate shards);
      nullifier = map (nullifier_row e) (numbered 0 (ys ++ r.senders));
      senders_receivers_total = some r.senders_receivers_total;
    };
  }

  counted : length w.tables.nullifier ≡ length ys
  counted = ap length full ∙ length-map (nullifier_row e) (numbered 0 ys) ∙ length-numbered 0 ys

  get_len_step : get_len_of_nullifier e rows_in ≡ (ok (length ys), rows_in)
  get_len_step =
      get_len_of_nullifier-calm e rows_in calm (omega (arith, counted))
      ∙ ap (λ n. (ok n, rows_in)) counted

  update_step :
      update_or_insert_total_senders_receivers e r.senders_receivers_total
        (with_nullifiers e rows_in (ys ++ r.senders))
      ≡ (ok tt, stored)
  unfolding update_or_insert_total_senders_receivers
  update_step =
      execute-calm (with_nullifiers e rows_in (ys ++ r.senders)) calm
        (λ t. record t { senders_receivers_total = some r.senders_receivers_total })

  pub store_response-calm : store_response e c r shards w ≡ (ok (length ys), stored)
  unfolding store_response
  store_response-calm =
      bind-ok _ _ (execute-calm w calm (λ t. t))
      ∙ in_transaction-ok _ (
          bind-ok _ _ (execute-calm w calm (λ t. t))
          ∙ bind-ok _ _ (insert_shards-calm e c (e.iterate shards) w calm small)
          ∙ bind-ok _ _ get_len_step
          ∙ bind-ok _ _ (insert_nullifiers-calm e ys r.senders rows_in calm full more)
          ∙ bind-ok _ _ update_step
          ∙ bind-ok _ _ (execute-calm stored calm (λ t. t)))
