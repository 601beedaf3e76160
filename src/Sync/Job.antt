-- ===== src/Sync/Job.antt =====
-- `start_sync_ledger_job` (src/indexer/sync.rs): the synchronization again and again until shutdown,
-- with its counters and the switch INIT_SYNCING_FINISHED. Sleeping and logging are left out.
pub mod Serves
use manta_indexer.Prelude.{
  ℕ, ◌+◌, ◌%◌, ◌^◌, ◌≡◌, ◌↔◌, ◌<◌, ◌≤◌, arith, length, refl, Bool, true, false, List, [], ◌∷◌,
  if◌then◌else◌, Bool-cases, inl, inr,
}
use manta_indexer.Words.{add64}
use manta_indexer.External.{External}
use manta_indexer.Store.{World, Result, ok, err}
use manta_indexer.Sync.{Node, Progress, finished, running, sync_shards_from_full_node}

pub record Job : Type 0 where
  pub synced_times : ℕ
  pub sync_error_count : ℕ
  pub init_syncing_finished : Bool

-- The end of `sync_shards_from_full_node`: a loop that is over stores `true` in the switch.
unfoldable pub turn_on : Result Progress → Job → Job
turn_on (ok (finished c)) job = record job { init_syncing_finished = true }
turn_on (ok (running c)) job = job
turn_on (err x) job = job

-- The two arms of the job's loop.
unfoldable pub after_sync : Result Progress → Job → Job
after_sync (ok (finished c)) job = record job { synced_times = (job.synced_times + 1) % 2 ^ 32 }
after_sync (ok (running c)) job = job
after_sync (err x) job = record job { sync_error_count = add64 job.sync_error_count 1 }

abbrev pub is_running : Result Progress → Bool
is_running (ok (finished c)) = false
is_running (ok (running c)) = true
is_running (err x) = false

module _ (e : External) where
  -- `flags` is what SHUTDOWN_FLAG says after each synchronization; run `k` talks to `ws k`. A
  -- synchronization that is still running when its fuel is used up is the last one seen.
  unfoldable pub start_sync_ledger_job :
      (ℕ → Node e) → ℕ → ℕ × ℕ → ℕ → List Bool → Job → World e → Job × World e
  start_sync_ledger_job ws fuel max_count k [] job w = (job, w)
  start_sync_ledger_job ws fuel max_count k (shutdown ∷ flags) job w =
      let (r, w') = sync_shards_from_full_node e (ws k) fuel 0 max_count true w in
      let after = after_sync r (turn_on r job) in
      let next = start_sync_ledger_job ws fuel max_count (k + 1) flags after w' in
      if is_running r then (job, w') else if shutdown then (after, w') else next

  -- The switch is on exactly where a synchronization was counted.
  abbrev pub Switched : Job → Type 0
  Switched job = (job.init_syncing_finished ≡ true) ↔ (0 < job.synced_times)

  after_sync-Switched :
      (r : Result Progress) (job : Job)
      → job.synced_times + 1 < 2 ^ 32
      → Switched job
      → Switched (after_sync r (turn_on r job))
        × ((after_sync r (turn_on r job)).synced_times ≤ job.synced_times + 1)
  unfolding after_sync turn_on
  after_sync-Switched (ok (finished c)) job room h =
      ((λ _. omega (arith, room), λ _. refl), omega (arith, room))
  after_sync-Switched (ok (running c)) job room h = (h, omega arith)
  after_sync-Switched (err x) job room h = (h, omega arith)

  -- From any world, whatever the nodes reply, whichever statements fail and whenever the shutdown
  -- comes: if the switch is on exactly where a synchronization was counted when the job starts, and the
  -- looks at the flag cannot make the count reach 2^32, the same holds when it ends; so a job that
  -- starts afresh turns the switch on exactly where a synchronization has succeeded.
  pub start_sync_ledger_job-Switched :
      (ws : ℕ → Node e) (fuel : ℕ) (max_count : ℕ × ℕ) (k : ℕ) (flags : List Bool) (job : Job)
      → (w : World e) → job.synced_times + length flags < 2 ^ 32
      → Switched job
      → Switched (start_sync_ledger_job ws fuel max_count k flags job w).0
  unfolding start_sync_ledger_job
  start_sync_ledger_job-Switched ws fuel max_count k [] job w room h = h
  start_sync_ledger_job-Switched ws fuel max_count k (shutdown ∷ flags) job w room h =
      let r = (sync_shards_from_full_node e (ws k) fuel 0 max_count true w).0 in
      let w' = (sync_shards_from_full_node e (ws k) fuel 0 max_count true w).1 in
      let (kept, counted) = after_sync-Switched r job (omega (arith, room)) h in
      elim (Bool-cases (is_running r)) [
        | inl goes_on ↦ rw goes_on h
        | inr over ↦ rw over (elim (Bool-cases shutdown) [
          | inl stop ↦ rw stop kept
          | inr on ↦ rw on (
              start_sync_ledger_job-Switched ws fuel max_count (k + 1) flags
                (after_sync r (turn_on r job)) w' (omega (arith, room, counted)) kept)
        ])
      ]
