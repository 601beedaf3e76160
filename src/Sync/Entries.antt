-- ===== src/Sync/Entries.antt =====
-- `reconstruct_shards_from_pull_response` (src/indexer/sync.rs): the receivers of a response by shard.
use manta_indexer.Prelude.{
  ℕ, ◌≡◌, ◌≢◌, ◌⊎◌, refl, sym, ap, ◌∙◌, arith, Bool, true, false, none, some, List, [], ◌∷◌, ◌++◌,
  append-nil, append_assoc, filter, All, Bool-cases, Option-cases, inl, inr, ◌==◌, if◌then◌else◌,
}
use manta_indexer.External.{External}
use manta_indexer.Types.{Receiver, PullResponse}
use manta_indexer.Store.{World, ok, err, indexer, bad_utxo}
use manta_indexer.Sync.{Shards, push_entry, reconstruct, reconstruct_shards_from_pull_response}
use manta_indexer.Sync.Checkpoints.{DistinctKeys}

-- What a map holds under a key, nothing where it has no entry.
abbrev pub entry : {A : Type 0} → ℕ → List (ℕ × List A) → List A
entry s [] = []
entry s ((k, xs) ∷ entries) = if k == s then xs else entry s entries

module _ {A : Type 0} where
  pub entry-push_entry :
      (s k : ℕ) (x : A) (m : List (ℕ × List A))
      → entry s (push_entry k x m) ≡ (if k == s then entry s m ++ x ∷ [] else entry s m)
  unfolding push_entry
  entry-push_entry s k x [] = ground arith
  entry-push_entry s k x ((j, xs) ∷ m) = ground (arith, entry-push_entry s k x m)

  pub place :
      (b : Bool) (x : A) (xs ys : List A)
      → (if b then xs ++ x ∷ [] else xs) ++ ys ≡ xs ++ (if b then x ∷ ys else ys)
  place true x xs ys = append_assoc xs (x ∷ []) ys
  place false x xs ys = refl

  push_entry-All :
      (j k : ℕ) (x : A) (m : List (ℕ × List A))
      → k ≢ j
      → All (λ q. q.0 ≢ j) m
      → All (λ q. q.0 ≢ j) (push_entry k x m)
  unfolding push_entry
  push_entry-All j k x [] ne h = (ne, tt)
  push_entry-All j k x ((i, xs) ∷ m) ne h = elim (Bool-cases (i == k)) [
    | inl same ↦ rw same (h.0, h.1)
    | inr other ↦ rw other (h.0, push_entry-All j k x m ne h.1)
  ]

  pub push_entry-DistinctKeys :
      (k : ℕ) (x : A) (m : List (ℕ × List A)) → DistinctKeys m → DistinctKeys (push_entry k x m)
  unfolding push_entry
  push_entry-DistinctKeys k x [] h = (tt, tt)
  push_entry-DistinctKeys k x ((i, xs) ∷ m) h = elim (Bool-cases (i == k)) [
    | inl same ↦ rw same (h.0, h.1)
    | inr other ↦ rw other (
      push_entry-All i k x m (λ q. ground (arith, q, other)) h.0,
      push_entry-DistinctKeys k x m h.1,
    )
  ]

module _ (e : External) where
  -- Whether a receiver belongs to a shard.
  abbrev pub belongs : ℕ → Receiver e → Bool
  belongs s r = elim (e.tree_index r.0) [ none ↦ false | some k ↦ k == s ]

  -- Whether a receiver belongs to no shard.
  abbrev pub stray : Receiver e → Bool
  stray r = elim (e.tree_index r.0) [ none ↦ true | some _ ↦ false ]

  -- The map of a loop over receivers that began with `m`, or its failure.
  abbrev pub Grouped : List (Receiver e) → Shards e → World e → Type 0
  Grouped rs m w =
      ((shards : Shards e) × (reconstruct e rs m w ≡ (ok shards, w))
        × ((s : ℕ) → entry s shards ≡ entry s m ++ filter (belongs s) rs)
        × DistinctKeys shards)
      ⊎ (reconstruct e rs m w ≡ (err (indexer bad_utxo), w)) × (filter stray rs ≢ [])

  reconstruct-Grouped :
      (rs : List (Receiver e)) (m : Shards e) (w : World e) → DistinctKeys m → Grouped rs m w
  unfolding reconstruct
  reconstruct-Grouped [] m w distinct = inl (m, refl, (λ s. sym (append-nil (entry s m))), distinct)
  reconstruct-Grouped (r ∷ rs) m w distinct = elim (Option-cases (e.tree_index r.0)) [
    | inl bad ↦ inr (rw bad refl, rw (stray, bad) (λ q. absurd (cc q)))
    | inr (k, good) ↦
        elim (reconstruct-Grouped rs (push_entry k r m) w
          (push_entry-DistinctKeys k r m distinct)) [
            | inl (shards, runs, entries, keys) ↦ inl (
              shards,
              rw good runs,
              (λ s.
                  entries s
                  ∙ ap (λ p. p ++ filter (belongs s) rs) (entry-push_entry s k r m)
                  ∙ place (k == s) r (entry s m) (filter (belongs s) rs)
                  ∙ ap
                      (λ b.
                        entry s m
                        ++ (if b then r ∷ filter (belongs s) rs else filter (belongs s) rs))
                      (sym (ap (λ o. elim o [ none ↦ false | some i ↦ i == s ]) good))),
              keys,
            )
            | inr (runs, bad) ↦ inr (rw good runs, rw (stray, good) bad)
          ]
  ]

  -- For any response, in any world, which stays as it is: either the call succeeds, and the map has
  -- for every shard its receivers in the order of the response, and no key twice; or it fails with
  -- BadUtxo, and some receiver belongs to no shard.
  pub reconstruct_shards-entries :
      (r : PullResponse e) (w : World e)
      → ((shards : Shards e) × (reconstruct_shards_from_pull_response e r w ≡ (ok shards, w))
          × ((s : ℕ) → entry s shards ≡ filter (belongs s) r.receivers)
          × DistinctKeys shards)
        ⊎ (reconstruct_shards_from_pull_response e r w ≡ (err (indexer bad_utxo), w))
          × (filter stray r.receivers ≢ [])
  unfolding reconstruct_shards_from_pull_response
  reconstruct_shards-entries r w = reconstruct-Grouped r.receivers [] w tt
