-- ===== src/Sync/Job/Serves.antt =====
-- `start_sync_ledger_job` (src/indexer/sync.rs) behind a full node whose ledger grows.
use manta_indexer.Prelude.{ℕ, ◌+◌, ◌%◌, ◌^◌, ◌<◌, ◌≡◌, Bool, true, false, List, [], ◌∷◌}
use manta_indexer.External.{External}
use manta_indexer.Store.{World}
use manta_indexer.Ledger.{Ledger, Fits, Serves}
use manta_indexer.Sync.{Node}
use manta_indexer.Sync.Follows.{Offers, IsPrefix, left}
use manta_indexer.Sync.Job.{Job, start_sync_ledger_job}

-- The synchronizations after the first, where the shutdown is seen after the first one or later.
abbrev pub further : Bool → List Bool → ℕ
further true flags = 0
further false [] = 0
further false (flag ∷ flags) = further flag flags + 1

module _ (e : External) (ws : ℕ → Node e) (wholes : ℕ → Ledger e)
    (offers : (k : ℕ) → Offers e (ws k) (wholes k))
    (grows : (k : ℕ) → IsPrefix e (wholes k) (wholes (k + 1))) (fits : (k : ℕ) → Fits e (wholes k))
    (max_count : ℕ × ℕ) (some_senders : 0 < max_count.0) (some_receivers : 0 < max_count.1)
    (fuel : ℕ) (enough : (k : ℕ) → left e (wholes (k + 1)) (wholes k) < fuel) where
  abbrev counted : Job → Job
  counted job = record job {
    synced_times = (job.synced_times + 1) % 2 ^ 32;
    init_syncing_finished = true;
  }

  -- What the job did with the flags, and what it ended with.
  pub record Kept (k : ℕ) (flag : Bool) (flags : List Bool) (job : Job) (w : World e) (job' : Job)
      (w' : World e) : Type 0 where
    pub runs : start_sync_ledger_job e ws fuel max_count k (flag ∷ flags) job w ≡ (job', w')
    pub times : job'.synced_times ≡ (job.synced_times + further flag flags + 1) % 2 ^ 32
    pub errors : job'.sync_error_count ≡ job.sync_error_count
    pub switch : job'.init_syncing_finished ≡ true
    pub serves : Serves e w' (wholes (k + further flag flags))
