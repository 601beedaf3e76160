-- ===== src/Service/Panics.antt =====
-- Where `start_service` (src/service.rs) can panic.
use Prim.Native.String.{String}
use mathlib.Core.List.{Permᴰ}
use mathlib.Core.List.Permᴰ
use manta_indexer.Prelude.{◌≡◌, ◌≢◌, none, List, ◌++◌}
use manta_indexer.Service.Calls.{Startup}
use manta_indexer.Service.Names.{indexer_names, relay_names}
use manta_indexer.Service.Start.{Host, Config}
use manta_indexer.Service.Fine.{Fine}

-- The configuration has every section and key that is asked for, of whatever type.
pub record Keyed (c : Config) : Type 0 where
  pub full_node : c.at_key "indexer" "full_node" ≢ none
  pub rpc_method : c.at_key "indexer" "rpc_method" ≢ none
  pub pool_size : c.at_key "db" "pool_size" ≢ none
  pub db_path : c.at_key "db" "db_path" ≢ none
  pub port : c.at_key "indexer" "port" ≢ none
  pub monitor_port : c.at_key "indexer" "prometheus_port" ≢ none
  pub frequency : c.at_key "indexer" "frequency" ≢ none
  pub server : c.server ≢ none

module _ (host : Host) (config : Config) (keyed : Keyed config) where
  -- The names of the two APIs in a module, and the static unset.
  abbrev Own : List String → Startup → Type 0
  Own names s = Permᴰ names indexer_names × (s.rpc_methods ≡ none)

  abbrev Both : List String → Startup → Type 0
  Both names s = Permᴰ names (indexer_names ++ relay_names) × (s.rpc_methods ≡ none)
