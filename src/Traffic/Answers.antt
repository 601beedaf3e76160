-- ===== src/Traffic/Answers.antt =====
-- What a pull answers after any traffic.
use mathlib.Core.List.{Permᴰ}
use mathlib.Core.Path.{subst}
use manta_indexer.Prelude.{
  ℕ, ◌+◌, ◌≡◌, sym, ap, ◌∙◌, ◌||◌, Bool, none, [], ◌++◌, append-nil, append_assoc, length, take,
  drop, ltb,
}
use manta_indexer.External.{Bytes, External}
use manta_indexer.Types.{Checkpoint, ReceiverChunk, SenderChunk}
use manta_indexer.Store.{World, ok, or_raise, json_rpsee}
use manta_indexer.Store.Bind.{bind-err}
use manta_indexer.Ledger.{Ledger, Fits, Serves}
use manta_indexer.Ledger.Growth.{Marks}
use manta_indexer.Pull.{pull_ledger_diff}
use manta_indexer.Pull.Plan.{takes, cursors, cut_short}
use manta_indexer.Pull.Answers.{pull_ledger_diff-plan}
use manta_indexer.Sync.{Node, synchronize_ledger, sync_round}
use manta_indexer.Sync.Rounds.{grown, sync_round-extends}
use manta_indexer.Sync.Start.{get_latest_check_point-Marks}
use manta_indexer.Sync.Follows.{grown-IsPrefix, IsPrefix}
use manta_indexer.Client.Follows.{Totalled}
use manta_indexer.Traffic.{
  Bounded, State, after_round, after_count, asks, Step, pulled, synced, unanswered, begun, Reach,
  start, step,
}

module _ (e : External) where
  -- The world serves the ledger, the checkpoint is the ledger's, and a total is stored.
  pub record Sound (s : State e) : Type 0 where
    pub fits : Fits e s.ledger
    pub serves : Serves e s.world s.ledger
    pub marks : Marks e s.checkpoint s.ledger
    pub totalled : Totalled e s.world

  IsPrefix_refl : (l : Ledger e) → IsPrefix e l l
  IsPrefix_refl l = record {
    shards = λ s. ([], sym (append-nil (l.shard s)));
    senders = ([], sym (append-nil l.senders));
  }

  IsPrefix_trans : (l m n : Ledger e) → IsPrefix e l m → IsPrefix e m n → IsPrefix e l n
  IsPrefix_trans l m n p q = record {
    shards = λ s.
        let (a, here) = p.shards s in
        let (b, there) = q.shards s in
        (a ++ b, there ∙ ap (λ xs. xs ++ b) here ∙ append_assoc (l.shard s) a b);
    senders =
        let (a, here) = p.senders in
        let (b, there) = q.senders in
        (a ++ b, there ∙ ap (λ xs. xs ++ b) here ∙ append_assoc l.senders a b);
  }

  unanswered-same :
      (ws : Node e) (n : ℕ) (max_count : ℕ × ℕ) (refresh_cache : Bool) (s : State e)
      → asks e ws n max_count s ≡ none
      → after_round e s s.ledger (sync_round e ws n max_count refresh_cache s.checkpoint s.world)
        ≡ s
  unfolding sync_round synchronize_ledger
  unanswered-same ws n max_count refresh_cache s silent =
      ap (after_round e s s.ledger) (bind-err _ _ (ap (λ o. or_raise o json_rpsee s.world) silent))

  -- Whatever step is taken, the state stays sound and the ledger only grows at its ends.
  Step-Sound : (s t : State e) → Step e s t → Sound s → Sound t × IsPrefix e s.ledger t.ledger
  Step-Sound _ _ (pulled s c most_receivers most_senders bounded) sound =
      let (receivers, senders, w', runs, _, _, tables, serves) =
        pull_ledger_diff-plan e s.ledger c most_receivers most_senders sound.totalled.total s.world
          sound.fits sound.serves sound.totalled.stored sound.totalled.size bounded.shards
          bounded.indices bounded.sender bounded.receivers bounded.senders in
      subst (λ w. Sound (record s { world = w }) × IsPrefix e s.ledger s.ledger)
        (sym (ap (λ p. p.1) runs))
        (
          record {
            fits = sound.fits;
            serves = serves;
            marks = sound.marks;
            totalled = record {
              total = sound.totalled.total;
              stored = ap (λ t. t.senders_receivers_total) tables ∙ sound.totalled.stored;
              size = sound.totalled.size;
            };
          },
          IsPrefix_refl s.ledger,
        )
  Step-Sound _ _ (synced s ws n max_count refresh_cache r replied whole fits size) sound =
      let (c', w', runs, marks, serves, stored) =
        sync_round-extends e ws n max_count refresh_cache s.checkpoint s.ledger r s.world
          sound.serves sound.marks fits replied whole in
      subst (λ t. Sound t × IsPrefix e s.ledger t.ledger)
        (sym (ap (after_round e s (grown e s.ledger r)) runs))
        (
          record {
            fits = fits;
            serves = serves;
            marks = marks;
            totalled = record { total = r.senders_receivers_total; stored = stored; size = size };
          },
          grown-IsPrefix e s.ledger r,
        )
  Step-Sound _ _ (unanswered s ws n max_count refresh_cache silent) sound =
      subst (λ t. Sound t × IsPrefix e s.ledger t.ledger)
        (sym (unanswered-same ws n max_count refresh_cache s silent))
        (sound, IsPrefix_refl s.ledger)
  Step-Sound _ _ (begun s) sound =
      let (c, runs, marks) =
        get_latest_check_point-Marks e s.ledger s.world sound.serves sound.fits.senders_fit in
      subst (λ t. Sound t × IsPrefix e s.ledger t.ledger) (sym (ap (after_count e s) runs))
        (
          record {
            fits = sound.fits;
            serves = sound.serves;
            marks = marks;
            totalled = sound.totalled;
          },
          IsPrefix_refl s.ledger,
        )

  Reach-Sound : (s t : State e) → Reach e s t → Sound s → Sound t × IsPrefix e s.ledger t.ledger
  Reach-Sound _ _ (start s) sound = (sound, IsPrefix_refl s.ledger)
  Reach-Sound _ _ (step s t u before last) sound =
      let (sound1, part1) = Reach-Sound s t before sound in
      let (sound2, part2) = Step-Sound t u last sound1 in
      (sound2, IsPrefix_trans s.ledger t.ledger u.ledger part1 part2)

  -- From a state whose world serves a ledger that fits and stores a total of 16 bytes, with the
  -- ledger's checkpoint: after any order of pulls, of rounds that the node replies to or not, and of new
  -- beginnings of the synchronization, where pulls have indices and amounts of at most 2^47 and replies
  -- have receivers that all belong to a shard, a total of 16 bytes and room in the ledger: a pull with
  -- such indices and amounts succeeds and gives the plan over the ledger that the node gave so far,
  -- which begins with the ledger at the start: the receivers of the plan and the senders of the window,
  -- when more follows, and the next checkpoint. Each pull and each round is one step.
  pub Reach-pull_ledger_diff :
      (s t : State e) (c : Checkpoint) (most_receivers most_senders : ℕ)
      → Sound s
      → Reach e s t
      → Bounded c most_receivers most_senders
      → IsPrefix e s.ledger t.ledger
        × (receivers : ReceiverChunk e) × (senders : SenderChunk e) × (total : Bytes) × (w' : World
            e)
        × (pull_ledger_diff e c most_receivers most_senders t.world ≡ (
          ok (
            record {
              should_continue =
                  cut_short e t.ledger most_receivers 0 c.receiver_index
                  || ltb (c.sender_index + most_senders) (length t.ledger.senders);
              receivers = receivers;
              senders = senders;
              senders_receivers_total = total;
            },
            record {
              receiver_index = cursors e t.ledger most_receivers 0 c.receiver_index;
              sender_index = c.sender_index + most_senders;
            },
          ),
          w',
        ))
        × Permᴰ receivers (takes e t.ledger most_receivers 0 c.receiver_index)
        × Permᴰ senders (take most_senders (drop c.sender_index t.ledger.senders))
  Reach-pull_ledger_diff s t c most_receivers most_senders sound reach bounded =
      let (after, part) = Reach-Sound s t reach sound in
      let (receivers, senders, w', runs, order1, order2, _, _) =
        pull_ledger_diff-plan e t.ledger c most_receivers most_senders after.totalled.total t.world
          after.fits after.serves after.totalled.stored after.totalled.size bounded.shards
          bounded.indices bounded.sender bounded.receivers bounded.senders in
      (part, receivers, senders, after.totalled.total, w', runs, order1, order2)
