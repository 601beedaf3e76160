-- ===== src/Examples/Metrics.antt =====
-- The metrics at concrete inputs; the registry is the list of its names.
use Prim.Native.String.{String, ◌++◌}
use text.Mathlib.Text
use manta_indexer.Prelude.{
  true, ℕ, zero, suc, ◌+◌, ◌≡◌, refl, Bool, false, ◌&&◌, ◌||◌, none, some, List, [], ◌∷◌, arith,
  ltb, if◌then◌else◌,
}
use manta_indexer.Monitoring.{
  Event, connect, disconnect, call, result, method_call, react_all, no_metrics,
}
use manta_indexer.Monitoring.Totals.{Counted, react_all-Counted}
use manta_indexer.Monitoring.Lazy.{
  Metric, conn_on_the_way, relay_response_time, sync_error_counter, among,
}
use manta_indexer.Monitoring.Registry.{Opts, Prometheus, Statics, force_all}
use manta_indexer.Monitoring.Registered.{name_of, Tracks, force_all-registers}

abbrev named : List String → String → Bool
named [] name = false
named (n ∷ names) name = Text.◌==◌ name n || named names name

abbrev joined : Opts → String
joined opts = opts.namespace ++ ("_" ++ (opts.subsystem ++ ("_" ++ opts.name)))

abbrev multiples : ℕ → ℕ → ℕ → List ℕ
multiples start width zero = []
multiples start width (suc count) = start ∷ multiples (start + width) width count

abbrev names : Prometheus
names = record {
  Registry = List String;
  Buckets = List ℕ;
  linear_buckets = λ start width count.
      if ltb 0 width && ltb 0 count then some (multiples start width count) else none;
  full_name = joined;
  registered = named;
  register = λ opts collector r. if named r (joined opts) then none else some (joined opts ∷ r);
  linear_buckets-some =
      λ start width count wide many. (multiples start width count, ground (arith, wide, many));
  full_name-joined = λ opts namespace subsystem name. refl;
  register-fresh =
      λ opts collector r full labels help new. (joined opts ∷ r, rw new refl, λ name. refl);
}

abbrev unused : Statics names
unused = record { registry = []; used = [] }

-- Three metrics, one of them used twice.
abbrev some_uses : List Metric
some_uses = conn_on_the_way ∷ relay_response_time ∷ conn_on_the_way ∷ sync_error_counter ∷ []

force_all-registers_example :
    (s' : Statics names) × (force_all names some_uses unused ≡ some s')
    × Tracks names s'
    × ((k : Metric)
        → names.registered s'.registry (name_of k)
          ≡ (among k some_uses || names.registered unused.registry (name_of k)))
force_all-registers_example = force_all-registers names some_uses unused (λ k. refl)

abbrev some_events : List Event
some_events =
    connect
    ∷ call "a" method_call
    ∷ result "a" true 3
    ∷ call "a" method_call
    ∷ result "a" false 5
    ∷ connect
    ∷ disconnect
    ∷ []

react_all-Counted_example : Counted some_events (react_all some_events no_metrics)
react_all-Counted_example = react_all-Counted some_events
