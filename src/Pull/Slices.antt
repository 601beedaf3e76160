-- ===== src/Pull/Slices.antt =====
-- `pull_receivers_for_shard` and `pull_senders` (src/indexer/pull.rs) against the ledger alone: a
-- request gets the slice that it asks for, in an order that the cache and SQLite choose.
use mathlib.Core.List.{Permᴰ}
use mathlib.Core.List.Permᴰ
use mathlib.Core.Path.{subst}
use manta_indexer.Prelude.{
  ℕ, ◌+◌, ◌^◌, ◌≤◌, ◌<◌, ◌≡◌, sym, ap, ◌∙◌, not, Option, List, ◌++◌, append_assoc, length, filter,
  numbered, take, drop, ltb, filter-perm, perm-map, map-append, map-numbered,
}
use manta_indexer.External.{Bytes, External}
use manta_indexer.Types.{Receiver, ReceiverChunk, Sender}
use manta_indexer.Store.{World, ok}
use manta_indexer.Ledger.{Ledger, Fits, Serves}
use manta_indexer.Pull.{pull_receivers_for_shard, pull_senders}
use manta_indexer.Pull.Window.{is_cached, values, hits}
use manta_indexer.Pull.OneShard
use manta_indexer.Pull.ShardSteps
use manta_indexer.Pull.Senders

-- What the cache has and what the database has make up the window.
gathered :
    {A : Type 0} (p : ℕ → Option Bytes) (i : ℕ) (xs : List A) (fetched : List (ℕ × A))
    → Permᴰ fetched (filter (λ q. not (is_cached p q.0)) (numbered i xs))
    → Permᴰ (values (hits p (numbered i xs)) ++ values fetched) xs
gathered p i xs fetched rest =
    let both =
      Permᴰ.trans (Permᴰ.append_left (hits p (numbered i xs)) rest)
        (filter-perm (λ q. is_cached p q.0) (numbered i xs)) in
    let image = perm-map (λ q. q.1) both in
    rw (sym (map-append (λ q. q.1) (hits p (numbered i xs)) fetched))
      (subst (λ l. Permᴰ (values (hits p (numbered i xs) ++ fetched)) l) (map-numbered i xs) image)

module _ (e : External) where
  -- In a world that serves a ledger, whatever its cache holds, and for a window that the cache keys
  -- can name: the call succeeds; it appends the entries of the shard in the window, none missing and
  -- none twice; it says that there is more exactly where the shard goes on after the window; it
  -- leaves the tables alone; and the world still serves the ledger.
  pub pull_receivers_for_shard-slice :
      (l : Ledger e) (s i m : ℕ) (acc : ReceiverChunk e) (w : World e)
      → Fits e l
      → Serves e w l
      → s < 256
      → i + m ≤ 2 ^ 48
      → (items : List (Receiver e)) × (w' : World e) × (pull_receivers_for_shard e s i m acc w
          ≡ (ok (acc ++ items, ltb (i + m) (length (l.shard s))), w'))
        × Permᴰ items (take m (drop i (l.shard s)))
        × (w'.tables ≡ w.tables)
        × Serves e w' l
  pull_receivers_for_shard-slice l s i m acc w fits serves shard range_fits =
      let r =
        OneShard.pull_receivers_for_shard-Pulled e l s i m acc w fits serves shard range_fits in
      let cached = values (hits (ShardSteps.peeked e w s) (OneShard.window e l s i m)) in
      (
        cached ++ values r.fetched,
        r.after,
        r.runs
            ∙ ap (λ c. (ok (c, ltb (i + m) (length (l.shard s))), r.after))
                (append_assoc acc cached (values r.fetched)),
        gathered _ i _ r.fetched r.rest,
        r.tables,
        r.serves,
      )

  -- In a world that serves a ledger, whatever its cache holds, and for a window that the cache keys
  -- can name: the call succeeds; it gives the senders in the window, none missing and none twice,
  -- the index after the window, and whether the ledger has a sender there; it leaves the tables
  -- alone; and the world still serves the ledger.
  pub pull_senders-slice :
      (l : Ledger e) (i m : ℕ) (w : World e)
      → Fits e l
      → Serves e w l
      → i + m ≤ 2 ^ 48
      → (items : List (Sender e)) × (w' : World e) × (pull_senders e i m w
          ≡ (ok (ltb (i + m) (length l.senders), i + m, items), w'))
        × Permᴰ items (take m (drop i l.senders))
        × (w'.tables ≡ w.tables)
        × Serves e w' l
  pull_senders-slice l i m w fits serves range_fits =
      let r = Senders.pull_senders-Pulled e l i m w fits serves range_fits in
      (_, r.after, r.runs, gathered _ i _ r.fetched r.rest, r.tables, r.serves)
