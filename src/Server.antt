-- ===== src/Server.antt =====
-- src/indexer/mod.rs: the two RPC methods of the indexer's own, over `pull_ledger_diff`.
pub mod Dense
pub mod Limits
use manta_indexer.Prelude.{ℕ, min, Bool, Option, some}
use manta_indexer.External.{Bytes, External}
use manta_indexer.Types.{Checkpoint, PullResponse}
use manta_indexer.Store.{Action, Result, ok, err, json_rpsee, pure, ◌>>=◌}
use manta_indexer.Sync.{max_senders, max_receivers}
use manta_indexer.Pull

-- `DensePullResponse` of the pallet; a text is the list of its bytes.
pub record DensePullResponse : Type 0 where
  pub senders_receivers_total : Bytes
  pub receivers : Bytes
  pub senders : Bytes
  pub should_continue : Bool
  pub next_checkpoint : Option Checkpoint

-- `JsonRpseeError::Custom` keeps only the text of an error.
abbrev pub as_custom : {A : Type 0} → Result A → Result A
as_custom (ok a) = ok a
as_custom (err x) = err json_rpsee

module _ (e : External) where
  unfoldable pub pull_ledger_diff_impl : Checkpoint → ℕ → ℕ → Action e (PullResponse e × Checkpoint)
  pull_ledger_diff_impl checkpoint amount_receivers amount_senders w =
      let (r, w') =
        Pull.pull_ledger_diff e checkpoint (min amount_receivers max_receivers)
          (min amount_senders max_senders) w in
      (as_custom r, w')

  unfoldable pub pull_ledger_diff : Checkpoint → ℕ → ℕ → Action e (PullResponse e)
  pull_ledger_diff checkpoint amount_receivers amount_senders = do
    response ← pull_ledger_diff_impl checkpoint amount_receivers amount_senders
    pure response.0

  unfoldable pub dense_pull_ledger_diff : Checkpoint → ℕ → ℕ → Action e DensePullResponse
  dense_pull_ledger_diff checkpoint amount_receivers amount_senders = do
    (raw, next_checkpoint) ← pull_ledger_diff_impl checkpoint amount_receivers amount_senders
    pure (record {
      senders_receivers_total = raw.senders_receivers_total;
      receivers = e.base64.encode (e.receivers.encode raw.receivers);
      senders = e.base64.encode (e.senders.encode raw.senders);
      should_continue = raw.should_continue;
      next_checkpoint = some next_checkpoint;
    })
