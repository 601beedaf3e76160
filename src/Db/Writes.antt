-- ===== src/Db/Writes.antt =====
-- What a later read of src/db.rs finds after a write, where no statement fails.
use mathlib.Core.List.{Permᴰ}
use manta_indexer.Prelude.{
  ℕ, ◌≡◌, ◌≢◌, refl, sym, ap, ◌∙◌, not, some, List, [], ◌∷◌, ◌++◌, arith, length, filter,
  perm-length, All-perm, Option, none, Bool-cases, inl, inr, ◌==◌, if◌then◌else◌,
}
use manta_indexer.External.{Bytes, Nullifier, External}
use manta_indexer.Store.{
  World, Result, ok, err, indexer, wrong_little_endian_array, decoded_error, codec, pure, raise,
  fetch_one, or_raise, ◌>>=◌,
}
use manta_indexer.Store.Bind.{bind-ok}
use manta_indexer.Store.Calm.{execute-calm, fetch_one-calm, first_of_rows}
use manta_indexer.Db.{
  total_rows, has_idx, insert_one_nullifier, get_one_nullifier, read_nullifier,
  update_or_insert_total_senders_receivers, get_total_senders_receivers,
}

only : {A : Type 0} (xs : List A) (x : A) → Permᴰ xs (x ∷ []) → xs ≡ x ∷ []
only [] x p = absurd (omega (arith, perm-length p))
only (y ∷ []) x p = ap (λ z. z ∷ []) (All-perm (λ z. z ≡ x) p (refl, tt)).0
only (y ∷ z ∷ xs) x p = absurd (omega (arith, perm-length p))

module _ (i : ℕ) (r : Nullifier) where
  -- Replacing the row of an index changes what is found at that index alone.
  replaced_self :
      (rows : List Nullifier)
      → r.idx ≡ i
      → filter (has_idx i) (filter (λ x. not (has_idx i x)) rows ++ r ∷ []) ≡ r ∷ []
  replaced_self [] same = ground (arith, same)
  replaced_self (x ∷ rows) same = ground (arith, same, replaced_self rows same)

  replaced_ne :
      (j : ℕ) (rows : List Nullifier)
      → r.idx ≡ i
      → j ≢ i
      → filter (has_idx j) (filter (λ x. not (has_idx i x)) rows ++ r ∷ [])
        ≡ filter (has_idx j) rows
  replaced_ne j [] same ne = ground (arith, same, ne)
  replaced_ne j (x ∷ rows) same ne = ground (arith, same, ne, replaced_ne j rows same ne)

module _ (e : External) (w : World e) (calm : w.faults ≡ []) where
  open e.sqlite use {
    arrange_shards, arrange_nullifiers, arrange_shards-perm, arrange_nullifiers-perm,
  }

  -- What a row of `nullifier` is read as.
  abbrev decoded :
      Option e.NullifierCommitment
      → Option e.OutgoingNote
      → Result (e.NullifierCommitment × e.OutgoingNote)
  decoded none on = err (indexer decoded_error)
  decoded (some nc) none = err codec
  decoded (some nc) (some on) = ok (nc, on)

  abbrev reading : Nullifier → Result (e.NullifierCommitment × e.OutgoingNote)
  reading r =
      decoded (e.commitment_of_bytes r.nullifier_commitment) (e.outgoing.decode r.outgoing_note)

  abbrev read_first : Result Nullifier → Result (e.NullifierCommitment × e.OutgoingNote)
  read_first (ok r) = reading r
  read_first (err x) = err x

  decodes :
      (w' : World e) (a : Option e.NullifierCommitment) (b : Option e.OutgoingNote)
      → ((or_raise a (indexer decoded_error) >>= λ nc. or_raise b codec >>= λ on. pure (nc, on))
          w').0
        ≡ decoded a b
  unfolding ◌>>=◌
  decodes w' none b = refl
  decodes w' (some nc) none = refl
  decodes w' (some nc) (some on) = refl

  reading-same : (w' : World e) (r : Nullifier) → (read_nullifier e r w').0 ≡ reading r
  unfolding read_nullifier
  reading-same w' r =
      decodes w' (e.commitment_of_bytes r.nullifier_commitment) (e.outgoing.decode r.outgoing_note)

  found :
      (w' : World e) (x : Result Nullifier)
      → (((λ w1. (x, w1)) >>= read_nullifier e) w').0 ≡ read_first x
  unfolding ◌>>=◌
  found w' (ok r) = reading-same w' r
  found w' (err x) = refl

  get_one_nullifier-first :
      (w' : World e) (j : ℕ)
      → w'.faults ≡ []
      → (get_one_nullifier e j w').0
        ≡ read_first (first_of_rows (arrange_nullifiers (filter (has_idx j) w'.tables.nullifier)))
  unfolding get_one_nullifier ◌>>=◌
  get_one_nullifier-first w' j calm' =
      ap (λ p. (((λ _. p) >>= read_nullifier e) w').0)
        (fetch_one-calm w' calm' (λ t. arrange_nullifiers (filter (has_idx j) t.nullifier)))
      ∙ found w' (first_of_rows (arrange_nullifiers (filter (has_idx j) w'.tables.nullifier)))

  module _ (i : ℕ) (nc : e.NullifierCommitment) (on : e.OutgoingNote) where
    abbrev new_row : Nullifier
    new_row = record {
      idx = i;
      nullifier_commitment = e.commitment.encode nc;
      outgoing_note = e.outgoing.encode on;
    }

    abbrev replaced : World e
    replaced = record w {
      tables = record w.tables {
        nullifier = filter (λ r. not (has_idx i r)) w.tables.nullifier ++ new_row ∷ [];
      };
    }

    reads_new :
        e.commitment_of_bytes (e.commitment.encode nc) ≡ some nc
        → decoded
            (e.commitment_of_bytes (e.commitment.encode nc))
            (e.outgoing.decode (e.outgoing.encode on))
          ≡ ok (nc, on)
    reads_new law = rw (law, e.outgoing.decode-encode on) refl

    at_self :
        e.commitment_of_bytes (e.commitment.encode nc) ≡ some nc
        → (get_one_nullifier e i replaced).0 ≡ ok (nc, on)
    at_self law =
        get_one_nullifier-first replaced i calm
        ∙ ap (λ rows. read_first (first_of_rows rows))
            (ap arrange_nullifiers (replaced_self i new_row w.tables.nullifier refl)
              ∙ only _ new_row (arrange_nullifiers-perm (new_row ∷ [])))
        ∙ reads_new law

    -- In a world where no statement fails, for a commitment whose encoding is read back as it: the
    -- insertion succeeds, whether the index has a row or not; afterwards the index is read as what was
    -- inserted, and every other index is read as before.
    pub insert_one_nullifier-reads :
        (j : ℕ)
        → e.commitment_of_bytes (e.commitment.encode nc) ≡ some nc
        → (w' : World e) × (insert_one_nullifier e i nc on w ≡ (ok tt, w'))
          × ((get_one_nullifier e j w').0
              ≡ (if j == i then ok (nc, on) else (get_one_nullifier e j w).0))
    unfolding insert_one_nullifier
    insert_one_nullifier-reads j law = (
      replaced,
      execute-calm w calm (λ t. record t {
        nullifier = filter (λ r. not (has_idx i r)) t.nullifier ++ new_row ∷ [];
      }),
      elim (Bool-cases (j == i)) [
        | inl same ↦
            let here : j ≡ i = ground (arith, same) in
            rw same (ap (λ k. (get_one_nullifier e k replaced).0) here ∙ at_self law)
        | inr other ↦ rw other (
            get_one_nullifier-first replaced j calm
            ∙ ap (λ rows. read_first (first_of_rows (arrange_nullifiers rows)))
                (replaced_ne i new_row j w.tables.nullifier refl (λ q. ground (arith, q, other)))
            ∙ sym (get_one_nullifier-first w j calm))
      ],
    )

  sized :
      (w' : World e) (total : Bytes)
      → (if length total == 16 then pure total else raise (indexer wrong_little_endian_array)) w'
        ≡ (if length total == 16 then ok total else err (indexer wrong_little_endian_array), w')
  sized w' total = elim (Bool-cases (length total == 16)) [
    | inl sixteen ↦ rw sixteen refl
    | inr other ↦ rw other refl
  ]

  -- In a world where no statement fails, whatever total is stored: after an update the total is read
  -- as the new one where that has 16 bytes, and else the read fails with WrongLittleEndianArray.
  pub update-get_total :
      (total : Bytes)
      → (w' : World e) × (update_or_insert_total_senders_receivers e total w ≡ (ok tt, w'))
        × (get_total_senders_receivers e w' ≡ (
          if length total == 16 then ok total else err (indexer wrong_little_endian_array),
          w',
        ))
  unfolding update_or_insert_total_senders_receivers get_total_senders_receivers
  update-get_total total =
      let w' : World e = record w {
        tables = record w.tables { senders_receivers_total = some total };
      } in
      (
        w',
        execute-calm w calm (λ t. record t { senders_receivers_total = some total }),
        bind-ok (fetch_one (λ t. total_rows e t.senders_receivers_total))
              (λ v. if length v == 16 then pure v else raise (indexer wrong_little_endian_array))
              {w = w'} (fetch_one-calm w' calm (λ t. total_rows e t.senders_receivers_total))
            ∙ sized w' total,
      )
