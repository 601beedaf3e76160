-- ===== src/Service.antt =====
-- src/service.rs with src/main.rs around it, and what it starts with: the helpers of src/utils.rs,
-- the database pool of src/db.rs and the server settings of src/relayer/mod.rs.
pub mod Calls
pub mod Cli
pub mod Utils
pub mod Open
pub mod Names
pub mod Start
pub mod Opened
pub mod Waits
pub mod Ready
pub mod Runs
pub mod Fine
pub mod Panics
pub mod Limits
pub mod Process
