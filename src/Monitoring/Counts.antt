-- ===== src/Monitoring/Counts.antt =====
-- What the metrics of src/monitoring.rs count, over any sequence of events.
use Prim.Native.String.{String}
use text.Mathlib.Text.{◌==◌}
use manta_indexer.Prelude.{
  ℕ, suc, ◌+◌, ◌-◌, ◌%◌, ◌^◌, ◌<◌, ◌≡◌, Bool, if◌then◌else◌, List, [], ◌∷◌, arith,
}
use text.Mathlib.TextEquality.{eq_iff}
use manta_indexer.Monitoring.{
  MethodKind, on_call, on_result, Metrics, Event, connect, disconnect, request, response, call,
  result, react_all, no_metrics,
}

abbrev pub calls : String → List Event → ℕ
calls m [] = 0
calls m (call name kind ∷ events) = if m == name then suc (calls m events) else calls m events
calls m (connect ∷ events) = calls m events
calls m (disconnect ∷ events) = calls m events
calls m (request ∷ events) = calls m events
calls m (response ∷ events) = calls m events
calls m (result name success time ∷ events) = calls m events

abbrev pub results : String → List Event → ℕ
results m [] = 0
results m (call name kind ∷ events) = results m events
results m (connect ∷ events) = results m events
results m (disconnect ∷ events) = results m events
results m (request ∷ events) = results m events
results m (response ∷ events) = results m events
results m (result name success time ∷ events) =
    if m == name then suc (results m events) else results m events

on_call-requests :
    (m name : String) (kind : MethodKind) (s : Metrics)
    → (on_call name kind s).req_on_the_way m
      ≡ (if m == name then (s.req_on_the_way m + 1) % 2 ^ 64 else s.req_on_the_way m)
unfolding on_call
on_call-requests m name kind s = ground (arith, eq_iff m name)

on_result-requests :
    (m name : String) (success : Bool) (time : ℕ) (s : Metrics)
    → (on_result name success time s).req_on_the_way m
      ≡ (if m == name then (s.req_on_the_way m + 2 ^ 64 - 1) % 2 ^ 64 else s.req_on_the_way m)
unfolding on_result
on_result-requests m name success time s = ground (arith, eq_iff m name)

requests_from :
    (m : String) (events : List Event) (s : Metrics)
    → s.req_on_the_way m < 2 ^ 64
    → ((react_all events s).req_on_the_way m + results m events) % 2 ^ 64
      ≡ (s.req_on_the_way m + calls m events) % 2 ^ 64
unfolding react_all
requests_from m [] s lt = omega arith
requests_from m (connect ∷ events) s lt = requests_from m events _ lt
requests_from m (disconnect ∷ events) s lt = requests_from m events _ lt
requests_from m (request ∷ events) s lt = requests_from m events _ lt
requests_from m (response ∷ events) s lt = requests_from m events _ lt
requests_from m (call name kind ∷ events) s lt =
    let step = on_call-requests m name kind s in
    let rest = requests_from m events (on_call name kind s) (ground (arith, step)) in
    ground (arith, step, rest)
requests_from m (result name success time ∷ events) s lt =
    let step = on_result-requests m name success time s in
    let rest = requests_from m events (on_result name success time s) (ground (arith, step)) in
    ground (arith, step, rest)

-- From no metrics, after any events, the requests on the way of a method are its calls less its
-- results, as 64-bit numbers.
pub requests-count :
    (m : String) (events : List Event)
    → ((react_all events no_metrics).req_on_the_way m + results m events) % 2 ^ 64
      ≡ calls m events % 2 ^ 64
requests-count m events = omega (arith, requests_from m events no_metrics (omega arith))
