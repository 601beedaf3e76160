-- ===== src/Monitoring/Lazy.antt =====
-- The metrics that are `Lazy` statics in src/monitoring.rs, src/relayer/sub_client_pool.rs and
-- src/indexer/sync.rs.
use manta_indexer.Prelude.{ℕ, Bool, false, ◌||◌, List, [], ◌∷◌, ◌==◌}

pub data Metric : Type 0 where
  total_relaying_counter relay_response_time conn_on_the_way : Metric
  req_on_the_way relaying_sub_channel_num sync_error_counter : Metric

abbrev pub number : Metric → ℕ
number total_relaying_counter = 0
number relay_response_time = 1
number conn_on_the_way = 2
number req_on_the_way = 3
number relaying_sub_channel_num = 4
number sync_error_counter = 5

abbrev pub among : Metric → List Metric → Bool
among metric [] = false
among metric (m ∷ ms) = number metric == number m || among metric ms
