-- ===== src/Service/Ready.antt =====
-- What a start of src/service.rs that ends well says of its host.
use manta_indexer.Prelude.{ℕ, ◌+◌, ◌<◌, ◌≡◌, true, false, some, List}
use Prim.Native.String.{String}
use manta_indexer.Service.Calls.{Startup, Outcome, done, stopped}
use manta_indexer.Service.Start.{Host, unsynced}

-- A result that is a value.
abbrev Done : {A : Type 0} → Outcome A × Startup → Type 0
Done (done a, s) = Unit
Done (stopped x, s) = ⊥

-- The relay is connected and has its worker, the synchronization is connected, the node replied, the
-- flags were found set at a look, and the exporter and the server run.
pub record Ready (host : Host) (fuel : ℕ) : Type 0 where
  pub relay_connects : host.relay_connects ≡ true
  pub spawns_worker : host.spawns_worker ≡ true
  pub sync_connects : host.sync_connects ≡ true
  pub replies : (methods : List String) × (host.node_methods ≡ some methods)
  pub synced : (k : ℕ) × (k < fuel) × (unsynced host.polls (0 + k) ≡ false)
  pub exports : host.exports ≡ true
  pub serves : host.serves ≡ true
