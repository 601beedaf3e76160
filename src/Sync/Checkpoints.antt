-- ===== src/Sync/Checkpoints.antt =====
-- The two ways in which the indexer moves a checkpoint past a response: `increasing_checkpoint`
-- (src/indexer/sync.rs) and `calculate_next_checkpoint` (src/indexer/pull.rs).
use manta_indexer.Prelude.{
  ℕ, ◌≡◌, ◌≢◌, refl, sym, ap, ◌∙◌, List, [], ◌∷◌, length, set, get_or, get_or-set_ne, All,
}
use manta_indexer.Words.{add64}
use manta_indexer.Types.{Checkpoint, ReceiverIndexArray}
use manta_indexer.Pull.{advance_receivers, calculate_next_checkpoint}
use manta_indexer.Sync.{increase_receivers, increasing_checkpoint}

-- The entries of a map: no key twice.
abbrev pub DistinctKeys {ℓ} : {A : Type ℓ} → List (ℕ × A) → Type ℓ
DistinctKeys [] = Unit
DistinctKeys ((k, a) ∷ entries) = All (λ q. q.0 ≢ k) entries × DistinctKeys entries

module _ {A : Type 0} where
  abbrev Agree : ReceiverIndexArray → ReceiverIndexArray → List (ℕ × List A) → Type 0
  Agree previous next = All (λ q. get_or previous q.0 0 ≡ get_or next q.0 0)

  still-Agree :
      (k v : ℕ) (previous next : ReceiverIndexArray) (shards : List (ℕ × List A))
      → All (λ q. q.0 ≢ k) shards
      → Agree previous next shards
      → Agree previous (set next k v) shards
  still-Agree k v previous next [] other agree = tt
  still-Agree k v previous next ((j, xs) ∷ shards) other agree = (
    agree.0 ∙ sym (get_or-set_ne next k j v 0 (λ q. other.0 (sym q))),
    still-Agree k v previous next shards other.1 agree.1,
  )

  advance-increase :
      (shards : List (ℕ × List A)) (previous next : ReceiverIndexArray)
      → DistinctKeys shards
      → Agree previous next shards
      → advance_receivers shards previous next ≡ increase_receivers shards next
  unfolding advance_receivers increase_receivers
  advance-increase [] previous next distinct agree = refl
  advance-increase ((k, xs) ∷ shards) previous next distinct agree =
      advance-increase shards previous _ distinct.1
        (still-Agree k _ previous next shards distinct.0 agree.1)
      ∙ ap (λ n. increase_receivers shards (set next k (add64 n (length xs)))) agree.0

  Agree-refl :
      (indices : ReceiverIndexArray) (shards : List (ℕ × List A)) → Agree indices indices shards
  Agree-refl indices [] = tt
  Agree-refl indices (q ∷ shards) = (refl, Agree-refl indices shards)

  -- For the entries of a map, in any order of iteration, and a next checkpoint that starts out as the
  -- previous one, `calculate_next_checkpoint` gives what `increasing_checkpoint` gives.
  pub calculate_next_checkpoint-increasing :
      (shards : List (ℕ × List A)) (checkpoint : Checkpoint) (senders : ℕ)
      → DistinctKeys shards
      → calculate_next_checkpoint shards checkpoint checkpoint senders
        ≡ increasing_checkpoint checkpoint senders shards
  unfolding calculate_next_checkpoint increasing_checkpoint
  calculate_next_checkpoint-increasing shards checkpoint senders distinct =
      ap
        (λ indices. record {
          sender_index = add64 checkpoint.sender_index senders;
          receiver_index = indices;
        })
        (advance-increase shards checkpoint.receiver_index checkpoint.receiver_index distinct
          (Agree-refl checkpoint.receiver_index shards))
