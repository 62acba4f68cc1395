-- ===== src/Server.antt =====
-- src/protocol/mod.rs: the errors of the AoE server.
pub mod Target
pub mod Manager
pub mod Listener
use vo_e.Common.{ℕ, Bytes}
use vo_e.Protocol.Parse.{ParseError}
use vo_e.Storage.{StorageError}

-- The message of `AoeError::BadArgument`, by its text.
pub data Complaint : Type 0 where
  expected_ata_payload expected_config_payload : Complaint

pub data AoeError : Type 0 where
  parse : ParseError → AoeError
  unrecognized_command : ℕ → AoeError
  bad_argument : Complaint → AoeError
  device_unavailable config_string_present : AoeError
  unsupported_version : ℕ → AoeError
  target_reserved : AoeError
  storage : StorageError → AoeError
