-- ===== src/Server/Limits.antt =====
-- The limits that `pull_ledger_diff_impl` (src/indexer/mod.rs) puts on a response.
use manta_indexer.Prelude.{
  ℕ, ◌^◌, ◌≤◌, ◌≡◌, ap, some, arith, length, min, drop, All, perm-length, length-take,
}
use manta_indexer.External.{Bytes, External}
use manta_indexer.Types.{Checkpoint, PullResponse}
use manta_indexer.Store.{World, ok}
use manta_indexer.Store.Bind.{bind-ok}
use manta_indexer.Ledger.{Ledger, Fits, Serves}
use manta_indexer.Sync.{max_senders, max_receivers}
use manta_indexer.Pull.Plan.{length-takes}
use manta_indexer.Pull.Answers.{pull_ledger_diff-plan}
use manta_indexer.Server.{as_custom, pull_ledger_diff_impl, pull_ledger_diff}

module _ (e : External) (l : Ledger e) where
  -- In a world that serves a ledger and stores a total of 16 bytes, for a checkpoint of at most 256
  -- shard indices of at most 2^47 and any amounts: the RPC method succeeds with at most as many
  -- receivers and senders as were asked for, and at most 4096 of each; the world still serves the
  -- ledger.
  pub pull_ledger_diff-limits :
      (c : Checkpoint) (receivers senders : ℕ) (total : Bytes) (w : World e)
      → Fits e l
      → Serves e w l
      → w.tables.senders_receivers_total ≡ some total
      → length total ≡ 16
      → length c.receiver_index ≤ 256
      → All (λ i. i ≤ 2 ^ 47) c.receiver_index
      → c.sender_index ≤ 2 ^ 47
      → (r : PullResponse e) × (w' : World e) × (pull_ledger_diff e c receivers senders w
          ≡ (ok r, w'))
        × (length r.receivers ≤ min receivers 4096)
        × (length r.senders ≤ min senders 4096)
        × Serves e w' l
  unfolding pull_ledger_diff pull_ledger_diff_impl
  pull_ledger_diff-limits c receivers senders total w fits serves stored size shards small
        sender_small =
      let (rs, ss, w', runs, order, sender_order, tables, serves') =
        pull_ledger_diff-plan e l c (min receivers max_receivers) (min senders max_senders) total w
          fits serves stored size shards small sender_small (omega arith) (omega arith) in
      (
        _,
        w',
        bind-ok _ _ (ap (λ p. (as_custom p.0, p.1)) runs),
        omega (
          arith,
          perm-length order,
          length-takes e l (min receivers max_receivers) 0 c.receiver_index,
        ),
        omega (
          arith,
          perm-length sender_order,
          length-take (min senders max_senders) (drop c.sender_index l.senders),
        ),
        serves',
      )
