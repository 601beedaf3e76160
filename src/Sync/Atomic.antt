-- ===== src/Sync/Atomic.antt =====
-- A round of src/indexer/sync.rs that fails stores nothing, neither in the database nor in the cache.
use mathlib.Core.Path.{subst}
use manta_indexer.Prelude.{
  min, ℕ, ◌≡◌, refl, Bool, true, false, List, [], ◌∷◌, Bool-cases, inl, inr, if◌then◌else◌, length,
  get_or, ltb, ◌^◌,
}
use manta_indexer.Words.{add64}
use manta_indexer.External.{Bytes, External}
use manta_indexer.Types.{Checkpoint, PullResponse, Receiver, SenderChunk}
use manta_indexer.Store.{
  World, Failure, err, pure, raise, or_raise, fails, panicked, query, indexer, bad_utxo, json_rpsee,
  statement,
}
use manta_indexer.Store.Effects.{
  Atomic, Quiet, SparesCache, Succeeds, AtomicAt, or_raise-Quiet, statement-SparesCache,
  in_transaction-Atomic, Quiet-then, Quiet-all, spares_all, Atomic-then, Succeeds-all,
}
use manta_indexer.Db.{
  insert_one_shard, insert_one_nullifier, get_len_of_nullifier,
  update_or_insert_total_senders_receivers,
}
use manta_indexer.Cache.{put_batch_receiver, put_batch_sender}
use manta_indexer.Sync.{
  Node, Shards, synchronize_ledger, reconstruct, reconstruct_shards_from_pull_response,
  insert_shard, insert_shards, insert_nullifiers, may_fail, store_response, cache_shards,
  cache_response, sync_round, batch_of, max_senders, max_receivers, push_entry,
}

module _ (e : External) where
  pure-Quiet : {A : Type 0} (a : A) → Quiet {e = e} (pure a)
  pure-Quiet a w = (refl, refl)

  may_fail-Quiet : Quiet {e = e} (may_fail e)
  unfolding statement
  may_fail-Quiet w = elim (Bool-cases (fails w.faults)) [
    | inl failed ↦ rw failed (refl, refl)
    | inr fine ↦ rw fine (refl, refl)
  ]

  reconstruct-Quiet :
      (rs : List (Receiver e)) (shards : Shards e) → Quiet {e = e} (reconstruct e rs shards)
  unfolding reconstruct
  reconstruct-Quiet [] shards w = (refl, refl)
  reconstruct-Quiet (r ∷ rs) shards w =
      Quiet-all (or_raise (e.tree_index r.0) (indexer bad_utxo))
        (λ i. reconstruct e rs (push_entry i r shards))
        (or_raise-Quiet (e.tree_index r.0) (indexer bad_utxo))
        (λ i. reconstruct-Quiet rs (push_entry i r shards)) w

  insert_shard-Spares :
      (s i : ℕ) (xs : List (Receiver e)) → SparesCache {e = e} (insert_shard e s i xs)
  unfolding insert_shard insert_one_shard
  insert_shard-Spares s i [] w = refl
  insert_shard-Spares s i ((u, n) ∷ xs) w =
      spares_all (insert_one_shard e s i u n) (λ _. insert_shard e s (add64 i 1) xs)
        (statement-SparesCache _) (λ _. insert_shard-Spares s (add64 i 1) xs) w

  insert_shards-Spares :
      (c : Checkpoint) (shards : Shards e) → SparesCache {e = e} (insert_shards e c shards)
  unfolding insert_shards
  insert_shards-Spares c [] w = refl
  insert_shards-Spares c ((s, xs) ∷ shards) w =
      spares_all (insert_shard e s (get_or c.receiver_index s 0) xs) (λ _. insert_shards e c shards)
        (insert_shard-Spares s (get_or c.receiver_index s 0) xs)
        (λ _. insert_shards-Spares c shards) w

  insert_nullifiers-Spares :
      (i : ℕ) (xs : SenderChunk e) → SparesCache {e = e} (insert_nullifiers e i xs)
  unfolding insert_nullifiers insert_one_nullifier
  insert_nullifiers-Spares i [] w = refl
  insert_nullifiers-Spares i ((nc, on) ∷ xs) w =
      spares_all (insert_one_nullifier e i nc on) (λ _. insert_nullifiers e (add64 i 1) xs)
        (statement-SparesCache _) (λ _. insert_nullifiers-Spares (add64 i 1) xs) w

  checked_count-Spares :
      (n : ℕ) → SparesCache {e = e} (if ltb n (2 ^ 32) then pure n else raise panicked)
  checked_count-Spares n w = elim (Bool-cases (ltb n (2 ^ 32))) [
    | inl small ↦ rw small refl
    | inr large ↦ rw large refl
  ]

  get_len_of_nullifier-Spares : SparesCache {e = e} (get_len_of_nullifier e)
  unfolding get_len_of_nullifier
  get_len_of_nullifier-Spares =
      spares_all (query λ t. length t.nullifier)
        (λ n. if ltb n (2 ^ 32) then pure n else raise panicked)
        (statement-SparesCache (λ t. (length t.nullifier, t))) (λ n. checked_count-Spares n)

  update-Spares : (b : List ℕ) → SparesCache {e = e} (update_or_insert_total_senders_receivers e b)
  unfolding update_or_insert_total_senders_receivers
  update-Spares b = statement-SparesCache _

  store_response-Atomic :
      (c : Checkpoint) (r : PullResponse e) (shards : Shards e)
      → Atomic {e = e} (store_response e c r shards)
  unfolding store_response
  store_response-Atomic c r shards = Quiet-then _ _ may_fail-Quiet (λ _. in_transaction-Atomic _ (
      spares_all _ _ (statement-SparesCache _) (λ _. spares_all _ _ (insert_shards-Spares c _) (λ _.
        spares_all _ _ get_len_of_nullifier-Spares (λ n.
          spares_all _ _ (insert_nullifiers-Spares n _) (λ _.
            spares_all _ _ (update-Spares _)
              (λ _. spares_all _ _ (statement-SparesCache _) (λ _ w. refl))))))))

  put_batch_receiver-Succeeds :
      (s : ℕ) (kvs : List (ℕ × Bytes)) → Succeeds {e = e} (put_batch_receiver e s kvs)
  unfolding put_batch_receiver
  put_batch_receiver-Succeeds s kvs w = (tt, _, refl)

  put_batch_sender-Succeeds : (kvs : List (ℕ × Bytes)) → Succeeds {e = e} (put_batch_sender e kvs)
  unfolding put_batch_sender
  put_batch_sender-Succeeds kvs w = (tt, _, refl)

  cache_shards-Succeeds :
      (c : Checkpoint) (shards : Shards e) → Succeeds {e = e} (cache_shards e c shards)
  unfolding cache_shards
  cache_shards-Succeeds c [] w = (tt, w, refl)
  cache_shards-Succeeds c ((s, xs) ∷ shards) w =
      Succeeds-all
        (put_batch_receiver e s (batch_of e e.receiver.encode (get_or c.receiver_index s 0) xs))
        (λ _. cache_shards e c shards) (put_batch_receiver-Succeeds s _)
        (λ _. cache_shards-Succeeds c shards) w

  refresh-Succeeds :
      (refresh_cache : Bool) (c : Checkpoint) (n : ℕ) (r : PullResponse e) (shards : Shards e)
      → Succeeds {e = e} (if refresh_cache then cache_response e c n r shards else pure tt)
  unfolding cache_response
  refresh-Succeeds true c n r shards w =
      Succeeds-all (cache_shards e c (e.iterate shards))
        (λ _. put_batch_sender e (batch_of e e.sender.encode n r.senders))
        (cache_shards-Succeeds c (e.iterate shards)) (λ _. put_batch_sender-Succeeds _) w
  refresh-Succeeds false c n r shards w = (tt, w, refl)

  synchronize_ledger-Quiet :
      (ws : Node e) (n : ℕ) (c : Checkpoint) (senders receivers : ℕ)
      → Quiet {e = e} (synchronize_ledger e ws n c senders receivers)
  unfolding synchronize_ledger
  synchronize_ledger-Quiet ws n c senders receivers =
      or_raise-Quiet (ws n c (min senders max_senders) (min receivers max_receivers)) json_rpsee

  shards_Quiet : (r : PullResponse e) → Quiet {e = e} (reconstruct_shards_from_pull_response e r)
  unfolding reconstruct_shards_from_pull_response
  shards_Quiet r = reconstruct-Quiet r.receivers []

  round_Atomic :
      (ws : Node e) (n : ℕ) (max_count : ℕ × ℕ) (refresh_cache : Bool) (c : Checkpoint)
      → Atomic {e = e} (sync_round e ws n max_count refresh_cache c)
  unfolding sync_round
  round_Atomic ws n (senders, receivers) refresh_cache c =
      Quiet-then _ _ (synchronize_ledger-Quiet ws n c senders receivers) (λ r.
        Quiet-then _ _ (shards_Quiet r) (λ shards.
          Atomic-then _ _ (store_response-Atomic c r shards) (λ k.
            Succeeds-all _ _ (refresh-Succeeds refresh_cache c k r shards) (λ _ w. (_, w, refl)))))

  -- From any world, whatever the node replies and whichever statement fails: a round that fails
  -- leaves the tables and the cache as they were.
  pub sync_round-Atomic :
      (ws : Node e) (n : ℕ) (max_count : ℕ × ℕ) (refresh_cache : Bool) (c : Checkpoint)
      → (w w' : World e) (x : Failure) → sync_round e ws n max_count refresh_cache c w ≡ (err x, w')
      → (w'.tables ≡ w.tables) × (w'.cache ≡ w.cache)
  sync_round-Atomic ws n max_count refresh_cache c w w' x failed =
      subst (AtomicAt w) failed (round_Atomic ws n max_count refresh_cache c w)
