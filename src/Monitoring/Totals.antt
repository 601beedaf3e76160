-- ===== src/Monitoring/Totals.antt =====
-- Every metric of src/monitoring.rs after any sequence of events.
use Prim.Native.String.{String}
use text.Mathlib.Text.{◌==◌}
use manta_indexer.Prelude.{
  ℕ, suc, ◌+◌, ◌%◌, ◌^◌, ◌<◌, ◌≡◌, refl, sym, ◌∙◌, Bool, true, false, ◌&&◌, if◌then◌else◌, List, [],
  ◌∷◌, ◌++◌, append-nil, append_assoc, arith, Bool-cases, inl, inr,
}
use manta_indexer.Words.{add64}
use manta_indexer.Monitoring.{
  same, on_connect, on_disconnect, on_call, on_result, Metrics, Event, connect, disconnect, request,
  response, call, result, react_all, no_metrics,
}
use manta_indexer.Monitoring.Counts.{calls, results, requests-count}

abbrev pub connects : List Event → ℕ
connects [] = 0
connects (connect ∷ events) = suc (connects events)
connects (disconnect ∷ events) = connects events
connects (request ∷ events) = connects events
connects (response ∷ events) = connects events
connects (call name kind ∷ events) = connects events
connects (result name success time ∷ events) = connects events

abbrev pub disconnects : List Event → ℕ
disconnects [] = 0
disconnects (connect ∷ events) = disconnects events
disconnects (disconnect ∷ events) = suc (disconnects events)
disconnects (request ∷ events) = disconnects events
disconnects (response ∷ events) = disconnects events
disconnects (call name kind ∷ events) = disconnects events
disconnects (result name success time ∷ events) = disconnects events

-- The results of a method that ended so.
abbrev pub outcomes : String → Bool → List Event → ℕ
outcomes m b [] = 0
outcomes m b (connect ∷ events) = outcomes m b events
outcomes m b (disconnect ∷ events) = outcomes m b events
outcomes m b (request ∷ events) = outcomes m b events
outcomes m b (response ∷ events) = outcomes m b events
outcomes m b (call name kind ∷ events) = outcomes m b events
outcomes m b (result name success time ∷ events) =
    if m == name && same b success then suc (outcomes m b events) else outcomes m b events

-- The times that the results of a method took, in order.
abbrev pub times : String → List Event → List ℕ
times m [] = []
times m (connect ∷ events) = times m events
times m (disconnect ∷ events) = times m events
times m (request ∷ events) = times m events
times m (response ∷ events) = times m events
times m (call name kind ∷ events) = times m events
times m (result name success time ∷ events) =
    if m == name then time ∷ times m events else times m events

conns_from :
    (events : List Event) (s : Metrics)
    → s.conn_num < 2 ^ 64
    → ((react_all events s).conn_num + disconnects events) % 2 ^ 64
      ≡ (s.conn_num + connects events) % 2 ^ 64
unfolding react_all on_connect on_disconnect on_call on_result
conns_from [] s lt = refl
conns_from (connect ∷ events) s lt = omega (arith, conns_from events (on_connect s) (omega arith))
conns_from (disconnect ∷ events) s lt =
    omega (arith, lt, conns_from events (on_disconnect s) (omega arith))
conns_from (request ∷ events) s lt = conns_from events s lt
conns_from (response ∷ events) s lt = conns_from events s lt
conns_from (call name kind ∷ events) s lt = conns_from events (on_call name kind s) lt
conns_from (result name success time ∷ events) s lt =
    conns_from events (on_result name success time s) lt

gauge_from :
    (events : List Event) (s : Metrics)
    → s.conn_on_the_way ≡ s.conn_num
    → (react_all events s).conn_on_the_way ≡ (react_all events s).conn_num
unfolding react_all on_connect on_disconnect on_call on_result
gauge_from [] s q = q
gauge_from (connect ∷ events) s q = gauge_from events (on_connect s) (omega (arith, q))
gauge_from (disconnect ∷ events) s q = gauge_from events (on_disconnect s) (omega (arith, q))
gauge_from (request ∷ events) s q = gauge_from events s q
gauge_from (response ∷ events) s q = gauge_from events s q
gauge_from (call name kind ∷ events) s q = gauge_from events (on_call name kind s) q
gauge_from (result name success time ∷ events) s q =
    gauge_from events (on_result name success time s) q

-- A counter that is increased by one where something is met.
bumped-lt : (hit : Bool) (x : ℕ) → x < 2 ^ 64 → (if hit then add64 x 1 else x) < 2 ^ 64
bumped-lt true x lt = omega arith
bumped-lt false x lt = lt

bumped-add :
    (hit : Bool) (x k : ℕ)
    → ((if hit then add64 x 1 else x) + k) % 2 ^ 64 ≡ (x + (if hit then suc k else k)) % 2 ^ 64
bumped-add true x k = omega arith
bumped-add false x k = refl

module _ (m : String) where
  outcomes_from :
      (b : Bool) (events : List Event) (s : Metrics)
      → s.total_relay_count m b < 2 ^ 64
      → (react_all events s).total_relay_count m b
        ≡ (s.total_relay_count m b + outcomes m b events) % 2 ^ 64
  unfolding react_all on_connect on_disconnect on_call on_result
  outcomes_from b [] s lt = omega (arith, lt)
  outcomes_from b (connect ∷ events) s lt = outcomes_from b events (on_connect s) lt
  outcomes_from b (disconnect ∷ events) s lt = outcomes_from b events (on_disconnect s) lt
  outcomes_from b (request ∷ events) s lt = outcomes_from b events s lt
  outcomes_from b (response ∷ events) s lt = outcomes_from b events s lt
  outcomes_from b (call name kind ∷ events) s lt = outcomes_from b events (on_call name kind s) lt
  outcomes_from b (result name success time ∷ events) s lt =
      let hit = m == name && same b success in
      outcomes_from b events (on_result name success time s)
        (bumped-lt hit (s.total_relay_count m b) lt)
      ∙ bumped-add hit (s.total_relay_count m b) (outcomes m b events)

  times_from :
      (events : List Event) (s : Metrics)
      → (react_all events s).response_time m ≡ s.response_time m ++ times m events
  unfolding react_all on_connect on_disconnect on_call on_result
  times_from [] s = sym (append-nil (s.response_time m))
  times_from (connect ∷ events) s = times_from events (on_connect s)
  times_from (disconnect ∷ events) s = times_from events (on_disconnect s)
  times_from (request ∷ events) s = times_from events s
  times_from (response ∷ events) s = times_from events s
  times_from (call name kind ∷ events) s = times_from events (on_call name kind s)
  times_from (result name success time ∷ events) s =
      times_from events (on_result name success time s) ∙ elim (Bool-cases (m == name)) [
        | inl here ↦ rw here (append_assoc (s.response_time m) (time ∷ []) (times m events))
        | inr away ↦ rw away refl
      ]

-- What the metrics hold after some events: connections less disconnections, twice; the requests on
-- the way of each method; its results by their outcome; and the times of its results in order.
pub record Counted (events : List Event) (s : Metrics) : Type 0 where
  pub conns : (s.conn_num + disconnects events) % 2 ^ 64 ≡ connects events % 2 ^ 64
  pub gauge : s.conn_on_the_way ≡ s.conn_num
  pub requests :
      (m : String) → (s.req_on_the_way m + results m events) % 2 ^ 64 ≡ calls m events % 2 ^ 64
  pub relayed : (m : String) (b : Bool) → s.total_relay_count m b ≡ outcomes m b events % 2 ^ 64
  pub elapsed : (m : String) → s.response_time m ≡ times m events

-- From no metrics, after any events, as 64-bit numbers: the connections, and their gauge, are the
-- connects less the disconnects; the requests on the way of a method are its calls less its results;
-- the counter of a method and an outcome is the number of its results with that outcome; and the
-- response times of a method are those of its results, in order.
pub react_all-Counted : (events : List Event) → Counted events (react_all events no_metrics)
react_all-Counted events = record {
  conns = omega (arith, conns_from events no_metrics (omega arith));
  gauge = gauge_from events no_metrics refl;
  requests = λ m. requests-count m events;
  relayed = λ m b. omega (arith, outcomes_from m b events no_metrics (omega arith));
  elapsed = λ m. times_from m events no_metrics;
}
