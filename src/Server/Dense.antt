-- ===== src/Server/Dense.antt =====
-- The dense response (src/indexer/mod.rs) against the plain one.
use manta_indexer.Prelude.{ℕ, ◌≡◌, refl, ap, ap₂, List, ◌∙◌, Option, none, some}
use manta_indexer.External.{Bytes, External, Codec}
use manta_indexer.Types.{Checkpoint, PullResponse}
use manta_indexer.Store.{World, Result, ok, err, pure, ◌>>=◌}
use manta_indexer.Server.{
  DensePullResponse, pull_ledger_diff_impl, pull_ledger_diff, dense_pull_ledger_diff,
}

-- How a client reads a chunk of the dense response.
abbrev pub read_dense : {A : Type 0} → Codec Bytes → Codec A → Bytes → Option A
read_dense text chunk bytes = elim (text.decode bytes) [ none ↦ none | some b ↦ chunk.decode b ]

read_dense-encode :
    {A : Type 0} (text : Codec Bytes) (chunk : Codec A) (a : A)
    → read_dense text chunk (text.encode (chunk.encode a)) ≡ some a
read_dense-encode text chunk a =
    ap (λ o. elim o [ none ↦ none | some b ↦ chunk.decode b ]) (text.decode-encode (chunk.encode a))
    ∙ chunk.decode-encode a

module _ (e : External) where
  abbrev assemble :
      DensePullResponse
      → Option (List (e.Utxo × e.FullIncomingNote))
      → Option (List (e.NullifierCommitment × e.OutgoingNote))
      → Option (PullResponse e)
  assemble d none ss = none
  assemble d (some rs) none = none
  assemble d (some rs) (some ss) = some (record {
    should_continue = d.should_continue;
    receivers = rs;
    senders = ss;
    senders_receivers_total = d.senders_receivers_total;
  })

  -- What a client makes of a dense response.
  abbrev pub undense : DensePullResponse → Option (PullResponse e)
  undense d =
      assemble d (read_dense e.base64 e.receivers d.receivers)
        (read_dense e.base64 e.senders d.senders)

  abbrev pub as_plain : Result DensePullResponse → Result (Option (PullResponse e))
  as_plain (ok d) = ok (undense d)
  as_plain (err x) = err x

  abbrev pub answered : Result (PullResponse e) → Result (Option (PullResponse e))
  answered (ok r) = ok (some r)
  answered (err x) = err x

  abbrev pub decoded :
      Result DensePullResponse × World e → Result (Option (PullResponse e)) × World e
  decoded p = (as_plain p.0, p.1)

  abbrev pub plain : Result (PullResponse e) × World e → Result (Option (PullResponse e)) × World e
  plain p = (answered p.0, p.1)

  abbrev densify : PullResponse e × Checkpoint → DensePullResponse
  densify (r, next) = record {
    senders_receivers_total = r.senders_receivers_total;
    receivers = e.base64.encode (e.receivers.encode r.receivers);
    senders = e.base64.encode (e.senders.encode r.senders);
    should_continue = r.should_continue;
    next_checkpoint = some next;
  }

  undense-densify : (r : PullResponse e) (next : Checkpoint) → undense (densify (r, next)) ≡ some r
  undense-densify r next =
      ap₂ (assemble (densify (r, next))) (read_dense-encode e.base64 e.receivers r.receivers)
        (read_dense-encode e.base64 e.senders r.senders)

  same_answer :
      (p : Result (PullResponse e × Checkpoint) × World e)
      → decoded (((λ _. p) >>= λ a. pure (densify a)) p.1)
        ≡ plain (((λ _. p) >>= λ a. pure a.0) p.1)
  unfolding ◌>>=◌
  same_answer (ok (r, next), w) = ap (λ o. (ok o, w)) (undense-densify r next)
  same_answer (err x, w) = refl

  -- In any world, the dense method, decoded by a client, is the plain method: the same response or
  -- the same error, and the same world after it.
  pub dense-plain :
      (c : Checkpoint) (receivers senders : ℕ) (w : World e)
      → decoded (dense_pull_ledger_diff e c receivers senders w)
        ≡ plain (pull_ledger_diff e c receivers senders w)
  unfolding pull_ledger_diff dense_pull_ledger_diff ◌>>=◌
  dense-plain c receivers senders w = same_answer (pull_ledger_diff_impl e c receivers senders w)
