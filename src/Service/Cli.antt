-- ===== src/Service/Cli.antt =====
-- src/cli.rs: the command line as it is parsed; the parser is clap's.
use Prim.Native.String.{String, ◌++◌}
use manta_indexer.Prelude.{Option, none}

pub data Commands : Type 0 where
  pull_utxo insert_utxo : Commands

pub record IndexerCli : Type 0 where
  pub config_path : String
  pub migrations_path : String
  pub command : Option Commands

-- What stands for the options where the command line has none.
abbrev pub default_cli : IndexerCli
default_cli = record { config_path = "./conf"; migrations_path = "./migrations"; command = none }

-- `format!("{}/log.yaml", args.config_path)` of src/main.rs
abbrev pub log_config : IndexerCli → String
log_config args = args.config_path ++ "/log.yaml"
