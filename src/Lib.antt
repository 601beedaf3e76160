-- ===== src/Lib.antt =====
-- manta-indexer: a server that follows the ledger of a Manta full node, keeps it in SQLite and in a
-- cache, and answers `pull_ledger_diff` to wallets; it relays the other RPC methods to the node.
--
-- The parts, and the files that model them:
--   * src/indexer/pull.rs: Pull. `pull_receivers` goes over the 256 shards and calls
--     `pull_receivers_for_shard`, which reads the cache, then the database, and writes back;
--     `pull_senders` does the same for the nullifiers; `pull_ledger_diff` joins them.
--     `calculate_next_checkpoint` stands there too. Pull/Window, Pull/ShardSteps, Pull/SenderSteps,
--     Pull/OneShard, Pull/Senders, Pull/Plan and Pull/ShardLoop carry the proofs of Pull/Slices,
--     Pull/Receivers, Pull/Complete and Pull/Answers.
--   * src/indexer/cache.rs: Cache, with the layout of its keys in Cache/Keys, and the sharded cache in
--     Cache/Sharded.
--   * src/db.rs: Db, one function for each query and update; Db/Writes and Db/Shards say what the reads
--     find after a write.
--   * src/indexer/sync.rs: Sync. `sync_round` is one turn of the loop of `sync_shards_from_full_node`;
--     `store_response` is its transaction and `cache_response` its refresh of the cache. Sync/Job is
--     the periodic job around it, and Sync/Job/Serves that job behind a node whose ledger grows.
--     Sync/Inserts, Sync/Commits, Sync/Stored, Sync/Cached and Sync/Maps carry the proof of
--     Sync/Rounds; Sync/Start, Sync/Follows and Sync/Answers go on from there to the whole loop and to
--     a pull after it. Client is `pull_ledger_diff_from_sqlite`, the loop that follows
--     the indexer's own responses: Client/Positions, Client/Counts and Client/Turns carry the proof of
--     Client/Follows. Traffic is pulls and rounds in any order, as a step relation.
--   * src/indexer/mod.rs: Server, the two RPC methods over `pull_ledger_diff`.
--   * src/relayer/relay_server.rs: Relay, the names and parameters of what is relayed;
--     src/relayer/sub_client_pool.rs: Relay/Pool, one client of the node for each connection, and
--     Relay/Tasks, the tasks that relay channels, as a step relation.
--   * src/service.rs: Service/Start, the start as a chain of calls, with what it calls in src/utils.rs
--     (Service/Utils), in src/db.rs (Service/Open), and the settings of src/relayer/mod.rs. It registers
--     the two APIs, whose names are in Service/Names, and starts the job of src/indexer/sync.rs.
--     src/main.rs is Service/Process, the process around it, and src/cli.rs Service/Cli.
--   * src/monitoring.rs: Monitoring, the metrics that the middleware keeps, and what they add up to in
--     Monitoring/Totals. Monitoring/Registry is how the metrics of all files are described and
--     registered when they are first used.
--   * src/types.rs and src/errors.rs: Types, External/Rows and Store.
--
-- Store is how all of it runs: a world of tables, cache and a list that says which of the statements
-- to come fail, and actions that take the world and give a result beside the new world. A fault can
-- stand at any statement, so a theorem over all worlds is about every point of failure.
-- Ledger is the abstract view: the receivers of each shard and the senders, as lists. `Serves` says
-- that the tables hold the ledger, that the cache holds nothing else, and that no statement fails.
-- Ledger/Growth is a ledger that grows at its ends. A full node is a function from its requests to
-- replies; Sync/Follows says what it is for a node to offer a ledger.
-- Service/Calls is another such chain, for the start: a state of the static RPC_METHODS and of the
-- calls made, and a result that may be a stop. What the crates and the network answer is the record
-- Host of Service/Start.
-- Prelude, Bits and Words are shared lists, tests, bits and 64-bit words.
--
-- What is not under src/ is the record External, and the record Prometheus of Monitoring/Registry for
-- the registry of metrics. External has the types and codecs of the pallet, the Merkle forest's index
-- of a receiver, the `lru` crate, the order of rows without ORDER BY in SQLite, the order of a
-- HashMap. Examples/Sample is one such record.
--
-- Bounds: `u64` and `usize` are numbers below 2^64 whose sums wrap. The theorems on pulls ask that
-- indices and amounts stay at most 2^47, or a window within 2^48, which the field of a cache key
-- holds; the server limits the amounts to 4096. The loops over a node's responses run on fuel, one
-- unit for a request; Sync/Follows and Client/Follows say how much is enough. The waits of the start
-- and of the process run on fuel too, one unit for each look at the flags.
--
-- Not modelled: logging and timing, what SQLite does when a database is opened or migrated, the parsing
-- of the command line, the transport of jsonrpsee and its limits, the worker thread of the relay's
-- clients beyond its spawn and what a job gives, SQLite's limit on the variables of a statement
-- (one over it is among the statements that fail), and a pull whose statements run while a round is under way.
pub mod Prelude
pub mod Bits
pub mod Words
pub mod Cache
pub mod External
pub mod Types
pub mod Store
pub mod Db
pub mod Ledger
pub mod Pull
pub mod Sync
pub mod Client
pub mod Traffic
pub mod Server
pub mod Relay
pub mod Monitoring
pub mod Service
pub mod Examples
