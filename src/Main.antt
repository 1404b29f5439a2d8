-- ===== src/Main.antt =====
-- mesh/src/main.rs: the command line and what it starts.
use anywhere_mesh.Base.{Text, codes, Bool, if◌then◌else◌}
use anywhere_mesh.Server.Start.{ServerCommand}
use anywhere_mesh.Client.Start.{ClientCommand}

pub data Commands : Type 0 where
  server : ServerCommand → Commands
  client : ClientCommand → Commands

pub record Cli : Type 0 where
  pub command : Commands
  pub verbose : Bool
  pub log_level : Text

-- The value that RUST_LOG gets, whatever it was.
unfoldable pub rust_log : Cli → Text
rust_log cli = if cli.verbose then codes "debug" else cli.log_level
