-- ===== src/Monitoring/Registry.antt =====
-- src/monitoring.rs, with the gauge of src/relayer/sub_client_pool.rs and the counter of
-- src/indexer/sync.rs: the options of the metrics, and their registration, which each `Lazy` static
-- does when it is first used.
use Prim.Native.String.{String, ◌++◌}
use text.Mathlib.Text.{◌==◌}
use manta_indexer.Prelude.{
  ℕ, ◌<◌, ◌≡◌, Bool, true, false, not, ◌&&◌, ◌||◌, Option, none, some, List, [], ◌∷◌, if◌then◌else◌,
}
use manta_indexer.Monitoring.Plain.{plain}
use manta_indexer.Monitoring.Lazy.{
  Metric, total_relaying_counter, relay_response_time, conn_on_the_way, req_on_the_way,
  relaying_sub_channel_num, sync_error_counter, among,
}

-- What a metric is registered as, with its labels; a histogram has buckets.
pub data Collector (Buckets : Type 0) : Type 0 where
  int_counter int_gauge : Collector Buckets
  int_counter_vec int_gauge_vec : List String → Collector Buckets
  histogram_vec : List String → Buckets → Collector Buckets

abbrev pub listed : String → List String → Bool
listed name [] = false
listed name (n ∷ names) = name == n || listed name names

-- Plain labels, none of them twice.
abbrev pub plain_labels : List String → Bool
plain_labels [] = true
plain_labels (name ∷ names) = plain name && not (listed name names) && plain_labels names

-- A histogram keeps the label "le" for its buckets.
abbrev pub labelled : {Buckets : Type 0} → Collector Buckets → Bool
labelled int_counter = true
labelled int_gauge = true
labelled (int_counter_vec names) = plain_labels names
labelled (int_gauge_vec names) = plain_labels names
labelled (histogram_vec names buckets) = plain_labels names && not (listed "le" names)

-- `Opts` and `HistogramOpts`, less the buckets.
pub record Opts : Type 0 where
  pub namespace : String
  pub subsystem : String
  pub name : String
  pub help : String

-- The prometheus crate: its default registry, by the full names of its metrics.
pub record Prometheus : Type 1 where
  pub Registry : Type 0
  pub Buckets : Type 0
  pub linear_buckets : ℕ → ℕ → ℕ → Option Buckets
  pub full_name : Opts → String
  pub registered : Registry → String → Bool
  pub register : Opts → Collector Buckets → Registry → Option Registry
  -- `linear_buckets` fails for a width or a count of 0 alone.
  pub linear_buckets-some :
      (start width count : ℕ)
      → 0 < width
      → 0 < count
      → (buckets : Buckets) × (linear_buckets start width count ≡ some buckets)
  -- The parts of a name are joined by underscores, where none is empty.
  pub full_name-joined :
      (opts : Opts)
      → (opts.namespace == "") ≡ false
      → (opts.subsystem == "") ≡ false
      → (opts.name == "") ≡ false
      → full_name opts ≡ opts.namespace ++ ("_" ++ (opts.subsystem ++ ("_" ++ opts.name)))
  -- A metric whose name is well-formed, whose labels are well-formed, distinct and not reserved, and
  -- which has a help text, is registered where its full name is new.
  pub register-fresh :
      (opts : Opts) (collector : Collector Buckets) (r : Registry)
      → plain (full_name opts) ≡ true
      → labelled collector ≡ true
      → (opts.help == "") ≡ false
      → registered r (full_name opts) ≡ false
      → (r' : Registry) × (register opts collector r ≡ some r')
        × ((name : String) → registered r' name ≡ ((name == full_name opts) || registered r name))

abbrev pub manta_indexer_monitoring_namespace : String
manta_indexer_monitoring_namespace = "manta_indexer"

unfoldable pub indexer_relay_opts : String → String → Opts
indexer_relay_opts name help = record {
  namespace = manta_indexer_monitoring_namespace;
  subsystem = "relay";
  name = name;
  help = help;
}

unfoldable pub indexer_ledger_opts : String → String → Opts
indexer_ledger_opts name help = record {
  namespace = manta_indexer_monitoring_namespace;
  subsystem = "ledger";
  name = name;
  help = help;
}

unfoldable pub indexer_relay_histogram_opts :
    {Buckets : Type 0} → String → String → Buckets → Opts × Buckets
indexer_relay_histogram_opts name help bucket = (
  record {
    namespace = manta_indexer_monitoring_namespace;
    subsystem = "relay";
    name = name;
    help = help;
  },
  bucket,
)

unfoldable pub indexer_ledger_histogram_opts :
    {Buckets : Type 0} → String → String → Buckets → Opts × Buckets
indexer_ledger_histogram_opts name help bucket = (
  record {
    namespace = manta_indexer_monitoring_namespace;
    subsystem = "ledger";
    name = name;
    help = help;
  },
  bucket,
)

-- RELAYING_SUB_CHANNEL_NUM of src/relayer/sub_client_pool.rs.
unfoldable pub relaying_sub_channel : Opts
unfolding indexer_relay_opts
relaying_sub_channel =
    indexer_relay_opts "relaying_sub_channel_num"
      "count the amount of channel existed now to relay subscribe data from indexer to dapp"

-- SYNC_ERROR_COUNTER of src/indexer/sync.rs.
unfoldable pub sync_error : Opts
unfolding indexer_ledger_opts
sync_error = indexer_ledger_opts "sync_error_count" "syncing error counter"

module _ (p : Prometheus) where
  unfoldable pub response_time_opts : Option p.Buckets → Option (Opts × Collector p.Buckets)
  unfolding indexer_relay_histogram_opts
  response_time_opts none = none
  response_time_opts (some bucket) =
      let (opts, buckets) =
        indexer_relay_histogram_opts "response_time" "stat the relaying response time" bucket in
      some (opts, histogram_vec ("method" ∷ []) buckets)

  -- What each static registers; `none` is the panic of the `unwrap` on its buckets.
  unfoldable pub described : Metric → Option (Opts × Collector p.Buckets)
  unfolding indexer_relay_opts response_time_opts relaying_sub_channel sync_error
  described total_relaying_counter = some (
    indexer_relay_opts "total_relay_count" "counting the total received relay request",
    int_counter_vec ("method" ∷ "status" ∷ []),
  )
  described relay_response_time = response_time_opts (p.linear_buckets 0 20 100)
  described conn_on_the_way =
      some (indexer_relay_opts "conn_on_the_way" "stat current ws connection number", int_gauge)
  described req_on_the_way = some (
    indexer_relay_opts "req_on_the_way" "stat current ws request on the way",
    int_gauge_vec ("method" ∷ []),
  )
  described relaying_sub_channel_num = some (relaying_sub_channel, int_gauge)
  described sync_error_counter = some (sync_error, int_counter)

  -- The registry, and the statics that were used.
  pub record Statics : Type 0 where
    pub registry : p.Registry
    pub used : List Metric

  -- `none` is the panic of the `expect`.
  abbrev kept : Metric → Statics → Option p.Registry → Option Statics
  kept metric s none = none
  kept metric s (some r) = some (record { registry = r; used = metric ∷ s.used })

  abbrev register_metric : Metric → Statics → Option (Opts × Collector p.Buckets) → Option Statics
  register_metric metric s none = none
  register_metric metric s (some (opts, collector)) =
      kept metric s (p.register opts collector s.registry)

  -- The first use of a static registers it; a later one does not.
  unfoldable pub force : Metric → Statics → Option Statics
  unfolding described
  force metric s =
      if among metric s.used then some s else register_metric metric s (described metric)

  abbrev pub and_then : (Statics → Option Statics) → Option Statics → Option Statics
  and_then f none = none
  and_then f (some s) = f s

  -- Uses one after another.
  unfoldable pub force_all : List Metric → Statics → Option Statics
  unfolding force
  force_all [] s = some s
  force_all (metric ∷ metrics) s = and_then (force_all metrics) (force metric s)
