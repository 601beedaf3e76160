-- ===== src/Monitoring.antt =====
-- src/monitoring.rs: the counters that the middleware of the WebSocket server keeps. A gauge is an
-- `i64`, by its bit pattern; logging is left out.
pub mod Counts
pub mod Totals
pub mod Plain
pub mod Lazy
pub mod Registry
pub mod Registered
use Prim.Native.String.{String}
use text.Mathlib.Text.{◌==◌}
use manta_indexer.Prelude.{ℕ, Bool, true, false, ◌&&◌, not, if◌then◌else◌, List, [], ◌∷◌, ◌++◌}
use manta_indexer.Words.{add64, sub64}

abbrev pub same : Bool → Bool → Bool
same true b = b
same false b = not b

-- `conn_num` of `IndexerMiddleware`, and the metrics it writes, by their labels; of the histogram
-- RELAY_RESPONSE_TIME the observations that it is given, in order, not its buckets.
pub record Metrics : Type 0 where
  pub conn_num : ℕ
  pub conn_on_the_way : ℕ
  pub req_on_the_way : String → ℕ
  pub total_relay_count : String → Bool → ℕ
  pub response_time : String → List ℕ

pub data MethodKind : Type 0 where
  method_call subscription unsubscription unknown : MethodKind

abbrev pub at_label : (String → ℕ) → String → ℕ → String → ℕ
at_label f name v m = if m == name then v else f m

unfoldable pub on_connect : Metrics → Metrics
on_connect s = record s {
  conn_num = add64 s.conn_num 1;
  conn_on_the_way = add64 s.conn_on_the_way 1;
}

-- The kind decides only what is logged.
unfoldable pub on_call : String → MethodKind → Metrics → Metrics
on_call method_name kind s = record s {
  req_on_the_way = at_label s.req_on_the_way method_name (add64 (s.req_on_the_way method_name) 1);
}

unfoldable pub on_result : String → Bool → ℕ → Metrics → Metrics
on_result name success elapsed_time s = record s {
  total_relay_count = λ m b.
      if m == name && same b success
      then add64 (s.total_relay_count m b) 1
      else s.total_relay_count m b;
  response_time =
      λ m. if m == name then s.response_time m ++ elapsed_time ∷ [] else s.response_time m;
  req_on_the_way = at_label s.req_on_the_way name (sub64 (s.req_on_the_way name) 1);
}

unfoldable pub on_disconnect : Metrics → Metrics
on_disconnect s = record s {
  conn_num = sub64 s.conn_num 1;
  conn_on_the_way = sub64 s.conn_on_the_way 1;
}

-- What the server tells the middleware. `on_request` and `on_response` change no metric.
pub data Event : Type 0 where
  connect disconnect request response : Event
  call : String → MethodKind → Event
  result : String → Bool → ℕ → Event

unfoldable pub react : Event → Metrics → Metrics
unfolding on_connect on_call on_result on_disconnect
react connect s = on_connect s
react disconnect s = on_disconnect s
react request s = s
react response s = s
react (call name kind) s = on_call name kind s
react (result name success elapsed_time) s = on_result name success elapsed_time s

unfoldable pub react_all : List Event → Metrics → Metrics
unfolding react
react_all [] s = s
react_all (event ∷ events) s = react_all events (react event s)

abbrev pub no_metrics : Metrics
no_metrics = record {
  conn_num = 0;
  conn_on_the_way = 0;
  req_on_the_way = λ m. 0;
  total_relay_count = λ m b. 0;
  response_time = λ m. [];
}
