-- ===== src/Monitoring/Registered.antt =====
-- The registration of the metrics never panics.
use Prim.Native.String.{String, ◌++◌}
use text.Mathlib.Text
use manta_indexer.Prelude.{
  ◌≡◌, refl, ap, ap₂, ◌∙◌, arith, Bool, true, false, ◌||◌, ◌==◌, some, List, [], ◌∷◌, Bool-cases,
  inl, inr,
}
use manta_indexer.Monitoring.Plain.{plain}
use manta_indexer.Monitoring.Lazy.{
  Metric, total_relaying_counter, relay_response_time, conn_on_the_way, req_on_the_way,
  relaying_sub_channel_num, sync_error_counter, number, among,
}
use manta_indexer.Monitoring.Registry.{
  Opts, Collector, labelled, Prometheus, response_time_opts, described, Statics, force, and_then,
  force_all,
}

abbrev same_name : String → String → Bool
same_name = Text.◌==◌

-- The full names of the metrics.
abbrev pub name_of : Metric → String
name_of total_relaying_counter = "manta_indexer_relay_total_relay_count"
name_of relay_response_time = "manta_indexer_relay_response_time"
name_of conn_on_the_way = "manta_indexer_relay_conn_on_the_way"
name_of req_on_the_way = "manta_indexer_relay_req_on_the_way"
name_of relaying_sub_channel_num = "manta_indexer_relay_relaying_sub_channel_num"
name_of sync_error_counter = "manta_indexer_ledger_sync_error_count"

name_of-plain : (metric : Metric) → plain (name_of metric) ≡ true
unfolding plain
name_of-plain total_relaying_counter = refl
name_of-plain relay_response_time = refl
name_of-plain conn_on_the_way = refl
name_of-plain req_on_the_way = refl
name_of-plain relaying_sub_channel_num = refl
name_of-plain sync_error_counter = refl

every :
    (P : Metric → Type 0)
    → P total_relaying_counter
    → P relay_response_time
    → P conn_on_the_way
    → P req_on_the_way
    → P relaying_sub_channel_num
    → P sync_error_counter
    → (metric : Metric) → P metric
every P a b c d f g total_relaying_counter = a
every P a b c d f g relay_response_time = b
every P a b c d f g conn_on_the_way = c
every P a b c d f g req_on_the_way = d
every P a b c d f g relaying_sub_channel_num = f
every P a b c d f g sync_error_counter = g

among-number : (k m : Metric) (ms : List Metric) → number k ≡ number m → among k ms ≡ among m ms
among-number k m [] same = refl
among-number k m (x ∷ ms) same =
    ap₂ (λ a b. a || b) (ap (λ n. n == number x) same) (among-number k m ms same)

or_swap : (x y z : Bool) → (x || (y || z)) ≡ ((y || x) || z)
or_swap true true z = refl
or_swap true false z = refl
or_swap false true z = refl
or_swap false false z = refl

-- No two metrics have the same full name.
distinct : (k m : Metric) → same_name (name_of k) (name_of m) ≡ (number k == number m)
distinct total_relaying_counter = every _ refl refl refl refl refl refl
distinct relay_response_time = every _ refl refl refl refl refl refl
distinct conn_on_the_way = every _ refl refl refl refl refl refl
distinct req_on_the_way = every _ refl refl refl refl refl refl
distinct relaying_sub_channel_num = every _ refl refl refl refl refl refl
distinct sync_error_counter = every _ refl refl refl refl refl refl

module _ (p : Prometheus) where
  record Described (metric : Metric) : Type 0 where
    pub opts : Opts
    pub collector : Collector p.Buckets
    pub shape : described p metric ≡ some (opts, collector)
    pub full : p.full_name opts ≡ name_of metric
    pub well_labelled : labelled collector ≡ true
    pub help : same_name opts.help "" ≡ false

  plainly :
      {metric : Metric} {opts : Opts} {collector : Collector p.Buckets}
      → described p metric ≡ some (opts, collector)
      → same_name opts.namespace "" ≡ false
      → same_name opts.subsystem "" ≡ false
      → same_name opts.name "" ≡ false
      → same_name opts.help "" ≡ false
      → opts.namespace ++ ("_" ++ (opts.subsystem ++ ("_" ++ opts.name))) ≡ name_of metric
      → labelled collector ≡ true
      → Described metric
  plainly {opts = opts} {collector = collector} shape namespace subsystem name help joined
        well_labelled =
      record {
        opts = opts;
        collector = collector;
        shape = shape;
        full = p.full_name-joined opts namespace subsystem name ∙ joined;
        well_labelled = well_labelled;
        help = help;
      }

  described_lem : (metric : Metric) → Described metric
  unfolding described plain
  described_lem total_relaying_counter = plainly refl refl refl refl refl refl refl
  described_lem relay_response_time =
      plainly
        (ap (response_time_opts p) (p.linear_buckets-some 0 20 100 (omega arith) (omega arith)).1)
        refl refl refl refl refl refl
  described_lem conn_on_the_way = plainly refl refl refl refl refl refl refl
  described_lem req_on_the_way = plainly refl refl refl refl refl refl refl
  described_lem relaying_sub_channel_num = plainly refl refl refl refl refl refl refl
  described_lem sync_error_counter = plainly refl refl refl refl refl refl refl

  -- The registry has exactly the metrics whose static was used.
  abbrev pub Tracks : Statics p → Type 0
  Tracks s = (metric : Metric) → p.registered s.registry (name_of metric) ≡ among metric s.used

  -- A use does not panic, and registers nothing but its own metric.
  abbrev Forced : Metric → Statics p → Type 0
  Forced m s =
      (s' : Statics p) × (force p m s ≡ some s')
      × Tracks s'
      × ((k : Metric)
          → p.registered s'.registry (name_of k)
            ≡ (number k == number m || p.registered s.registry (name_of k)))

  first_use : (m : Metric) (s : Statics p) → Tracks s → among m s.used ≡ false → Forced m s
  unfolding force
  first_use m s tracks new =
      let d = described_lem m in
      let (r, registers, now) =
        p.register-fresh d.opts d.collector s.registry (ap plain d.full ∙ name_of-plain m)
          d.well_labelled d.help (ap (p.registered s.registry) d.full ∙ tracks m ∙ new) in
      let after : (k : Metric)
          → p.registered r (name_of k)
            ≡ (number k == number m || p.registered s.registry (name_of k)) =
        λ k.
          now (name_of k)
          ∙ ap (λ b. b || p.registered s.registry (name_of k))
              (ap (same_name (name_of k)) d.full ∙ distinct k m) in
      (
        record { registry = r; used = m ∷ s.used },
        rw (new, d.shape, registers) refl,
        λ k. after k ∙ ap (λ b. number k == number m || b) (tracks k),
        after,
      )

  later_use : (m : Metric) (s : Statics p) → Tracks s → among m s.used ≡ true → Forced m s
  unfolding force
  later_use m s tracks used = (
    s,
    rw used refl,
    tracks,
    λ k. elim (Bool-cases (number k == number m)) [
      | inl same ↦ rw same (tracks k ∙ among-number k m s.used (ground (arith, same)) ∙ used)
      | inr other ↦ rw other refl
    ],
  )

  used : (m : Metric) (s : Statics p) → Tracks s → Forced m s
  used m s tracks = elim (Bool-cases (among m s.used)) [
    | inl before ↦ later_use m s tracks before
    | inr new ↦ first_use m s tracks new
  ]

  -- In a registry that has exactly the metrics whose static was used, as at the start of the process:
  -- whichever statics are used, how often and in which order, none panics; and afterwards a metric is
  -- registered when it was before or its static was used.
  pub force_all-registers :
      (metrics : List Metric) (s : Statics p)
      → Tracks s
      → (s' : Statics p) × (force_all p metrics s ≡ some s')
        × Tracks s'
        × ((k : Metric)
            → p.registered s'.registry (name_of k)
              ≡ (among k metrics || p.registered s.registry (name_of k)))
  unfolding force_all
  force_all-registers [] s tracks = (s, refl, tracks, λ k. refl)
  force_all-registers (m ∷ metrics) s tracks =
      let (s1, forced, tracks1, after1) = used m s tracks in
      let (s2, runs, tracks2, after2) = force_all-registers metrics s1 tracks1 in
      (
        s2,
        ap (and_then p (force_all p metrics)) forced ∙ runs,
        tracks2,
        λ k.
            after2 k
            ∙ ap (λ b. among k metrics || b) (after1 k)
            ∙ or_swap (among k metrics) (number k == number m) _,
      )
