-- ===== src/Client/Turns.antt =====
-- One turn of `pull_ledger_diff_from_sqlite` (src/indexer/sync.rs) in a world that serves a ledger.
use mathlib.Core.List.{Permᴰ}
use mathlib.Core.Path.{subst}
use manta_indexer.Prelude.{
  ℕ, zero, suc, ◌+◌, ◌*◌, ◌^◌, ◌≤◌, ◌<◌, ◌≡◌, refl, sym, ap, ap₂, ◌∙◌, ◌||◌, Bool, List, [], ◌∷◌,
  arith, length, take, drop, ltb, filter, get_or, All, All-perm, perm-length, length-filter_perm,
  filter_rejects, length-take, length-drop,
}
use manta_indexer.External.{External}
use manta_indexer.Types.{Checkpoint, Receiver, PullResponse}
use manta_indexer.Ledger.{Ledger, Fits}
use manta_indexer.Pull.{calculate_next_checkpoint}
use manta_indexer.Pull.Plan.{takes, cursors, cut_short}
use manta_indexer.Sync.{Shards, increase_receivers, increasing_checkpoint}
use manta_indexer.Sync.Checkpoints.{calculate_next_checkpoint-increasing, DistinctKeys}
use manta_indexer.Sync.Entries.{entry, belongs, stray}
use manta_indexer.Sync.Maps.{
  DistinctKeys-perm, entry-perm, get_or-increase_receivers, length-increase_receivers,
}
use manta_indexer.Sync.Stored.{KeysFit}
use manta_indexer.Client.Positions.{Inside, Inside-small, cursors-Inside, length-cursors}
use manta_indexer.Client.Counts.{InPlace, cursors-count, takes-InPlace}

-- `max_sender_count` and `max_receiver_count` there.
abbrev pub amount : ℕ
amount = 1024 * 15

get_or-ext :
    (xs ys : List ℕ)
    → length xs ≡ length ys
    → ((j : ℕ) → j < length xs → get_or xs j 0 ≡ get_or ys j 0)
    → xs ≡ ys
get_or-ext [] [] same h = refl
get_or-ext [] (y ∷ ys) same h = absurd (omega arith)
get_or-ext (x ∷ xs) [] same h = absurd (omega arith)
get_or-ext (x ∷ xs) (y ∷ ys) same h =
    ap₂ ◌∷◌ (h 0 (omega arith)) (get_or-ext xs ys (omega arith) (λ j lt. h (suc j) (omega arith)))

All-get_or : (n : ℕ) (xs : List ℕ) (j : ℕ) → All (λ i. i ≤ n) xs → get_or xs j 0 ≤ n
All-get_or n [] j h = omega arith
All-get_or n (x ∷ xs) zero h = h.0
All-get_or n (x ∷ xs) (suc j) h = All-get_or n xs j h.1

module _ (e : External) (l : Ledger e) where
  -- A checkpoint within a ledger.
  pub record Within (c : Checkpoint) : Type 0 where
    pub width : length c.receiver_index ≡ 256
    pub receivers : Inside e l 0 c.receiver_index
    pub senders : c.sender_index ≤ length l.senders

  abbrev pub Roomy : Type 0
  Roomy = (s : ℕ) → length (l.shard s) ≤ 2 ^ 47

  -- Where a turn leads.
  abbrev pub onward : Checkpoint → Checkpoint
  onward c = record {
    receiver_index = cursors e l amount 0 c.receiver_index;
    sender_index = c.sender_index + length (take amount (drop c.sender_index l.senders));
  }

  -- Whether the response says that more follows.
  abbrev pub goes_on : Checkpoint → Bool
  goes_on c =
      cut_short e l amount 0 c.receiver_index || ltb (c.sender_index + amount) (length l.senders)

  module _ (in_place : InPlace e l) (roomy : Roomy) (fits : Fits e l) where
    pub onward-Within : (c : Checkpoint) → Within c → Within (onward c)
    onward-Within c within = record {
      width = length-cursors e l amount 0 c.receiver_index ∙ within.width;
      receivers = cursors-Inside e l amount 0 c.receiver_index within.receivers;
      senders = omega (
        arith,
        within.senders,
        length-take amount (drop c.sender_index l.senders),
        length-drop c.sender_index l.senders,
      );
    }

    module _ (c : Checkpoint) (within : Within c) (r : PullResponse e)
        (order : Permᴰ r.receivers (takes e l amount 0 c.receiver_index))
        (senders : Permᴰ r.senders (take amount (drop c.sender_index l.senders))) where
      pub whole : filter (stray e) r.receivers ≡ []
      whole =
          filter_rejects (stray e) r.receivers
            (All-perm _ order (takes-InPlace e l in_place amount 0 c.receiver_index))

      module _ (shards : Shards e)
          (entries : (s : ℕ) → entry s shards ≡ filter (belongs e s) r.receivers)
          (distinct : DistinctKeys shards) (keys : KeysFit shards) where
        abbrev m : Shards e
        m = e.iterate shards

        distinct' : DistinctKeys m
        distinct' = DistinctKeys-perm (e.iterate-perm shards) distinct

        counted :
            (j : ℕ)
            → j < 256
            → get_or (increase_receivers m c.receiver_index) j 0
              ≡ get_or (cursors e l amount 0 c.receiver_index) j 0
        counted j lt =
            let given : length (entry j m)
                ≡ length (filter (belongs e j) (takes e l amount 0 c.receiver_index)) =
              ap length (entry-perm j (e.iterate-perm shards) distinct ∙ entries j)
              ∙ length-filter_perm (belongs e j) order in
            let moved : get_or (cursors e l amount 0 c.receiver_index) j 0
                ≡ get_or c.receiver_index j 0 + length (entry j m) =
              cursors-count e l in_place amount 0 j c.receiver_index
                (omega (arith, lt, within.width))
              ∙ ap (λ t. get_or c.receiver_index j 0 + t)
                  (ap (λ t. length (filter (belongs e t) (takes e l amount 0 c.receiver_index)))
                      (omega arith)
                    ∙ sym given) in
            let small =
              All-get_or (2 ^ 47) (cursors e l amount 0 c.receiver_index) j
                (Inside-small e l 0 _ roomy (onward-Within c within).receivers) in
            get_or-increase_receivers m c.receiver_index j distinct'
              (subst (λ n. All (λ (q : ℕ × List (Receiver e)). q.0 < n) m) (sym within.width)
                (All-perm _ (e.iterate-perm shards) keys))
              (omega (arith, small, moved))
            ∙ sym moved

        pub turned : calculate_next_checkpoint m c c (length r.senders) ≡ onward c
        unfolding increasing_checkpoint
        turned =
            calculate_next_checkpoint-increasing m c (length r.senders) distinct'
            ∙ ap₂ (λ n is. record { sender_index = n; receiver_index = is })
                (omega
                  (arith, perm-length senders, (onward-Within c within).senders, fits.senders_fit))
                (get_or-ext _ _
                  (length-increase_receivers m c.receiver_index
                    ∙ sym (length-cursors e l amount 0 c.receiver_index))
                  (λ j lt. counted j (
                    omega (arith, lt, within.width, length-increase_receivers m c.receiver_index))))
