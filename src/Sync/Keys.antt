-- ===== src/Sync/Keys.antt =====
-- The keys of the map of shards that src/indexer/sync.rs makes of a response.
use mathlib.Core.Path.{subst}
use manta_indexer.Prelude.{ℕ, ◌<◌, ◌≡◌, ap, List, [], ◌∷◌, Bool-cases, Option-cases, inl, inr, ◌==◌}
use manta_indexer.External.{External}
use manta_indexer.Types.{Receiver, PullResponse}
use manta_indexer.Store.{World, ok, err}
use manta_indexer.Sync.{Shards, push_entry, reconstruct, reconstruct_shards_from_pull_response}
use manta_indexer.Sync.Stored.{KeysFit}

module _ (e : External) where
  push_entry-KeysFit :
      (k : ℕ) (x : Receiver e) (m : Shards e) → k < 256 → KeysFit m → KeysFit (push_entry k x m)
  unfolding push_entry
  push_entry-KeysFit k x [] lt h = (lt, tt)
  push_entry-KeysFit k x ((j, xs) ∷ m) lt h = elim (Bool-cases (j == k)) [
    | inl same ↦ rw same (h.0, h.1)
    | inr other ↦ rw other (h.0, push_entry-KeysFit k x m lt h.1)
  ]

  reconstruct-KeysFit :
      (rs : List (Receiver e)) (m shards : Shards e) (w : World e)
      → KeysFit m
      → reconstruct e rs m w ≡ (ok shards, w)
      → KeysFit shards
  unfolding reconstruct
  reconstruct-KeysFit [] m shards w h runs =
      subst KeysFit (ap (λ p. elim p.0 [ ok a ↦ a | err _ ↦ m ]) runs) h
  reconstruct-KeysFit (r ∷ rs) m shards w h runs = elim (Option-cases (e.tree_index r.0)) [
    | inl bad ↦ absurd (cc (ap (λ p. p.0) (rw bad at runs)))
    | inr (k, good) ↦
        reconstruct-KeysFit rs (push_entry k r m) shards w
          (push_entry-KeysFit k r m (e.tree_index-lt r.0 k good) h) (rw good at runs)
  ]

  -- For any response: every key of the map that the call gives is below 256, so it is a `u8` and an
  -- index of a checkpoint.
  pub reconstruct_shards-KeysFit :
      (r : PullResponse e) (shards : Shards e) (w : World e)
      → reconstruct_shards_from_pull_response e r w ≡ (ok shards, w)
      → KeysFit shards
  unfolding reconstruct_shards_from_pull_response
  reconstruct_shards-KeysFit r shards w runs = reconstruct-KeysFit r.receivers [] shards w tt runs
