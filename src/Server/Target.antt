-- ===== src/Server/Target.antt =====
-- src/server/target.rs: the targets by shelf and slot, and the answers to a frame.
pub mod Table
use vo_e.Common.{
  ℕ, Bytes, Bool, true, false, ◌&&◌, if◌then◌else◌, ◌==◌, ◌||◌, bytes_eq, take, length, ◌≡◌, Option,
  none, some, List, [], ◌∷◌, ◌++◌, map, Outcome, ok, err, map_err, ◌>>=◌,
}
use vo_e.Protocol.Types.{
  broadcast_shelf, broadcast_slot, max_sectors_standard, AoeFrame, AoePayload, ata_payload,
  config_payload, ConfigHeader, ConfigCommand, read, test_exact, test_prefix, set, force_set,
  config_command, ata, config,
}
use vo_e.Protocol.Build.{AtaResponse, ConfigResponse, ResponseData, ata_response, config_response}
use vo_e.Storage.{BlockStorage}
use vo_e.Ata.{handle_ata_command}
use vo_e.Server.{
  AoeError, unrecognized_command, bad_argument, device_unavailable, config_string_present,
  expected_ata_payload, expected_config_payload,
}

pub record TargetAddr : Type 0 where
  pub shelf : ℕ
  pub slot : ℕ

abbrev pub addr_eq : TargetAddr → TargetAddr → Bool
addr_eq a b = (a.shelf == b.shelf) && (a.slot == b.slot)

-- A target of devices with state `S`.
pub record Target (S : Type 0) : Type 0 where
  pub storage : S
  pub config_string : Bytes

-- The `HashMap`, in the order in which its keys come; every key stands once.
abbrev pub Targets : Type 0 → Type 0
Targets S = List (TargetAddr × Target S)

pub record TargetManager (S : Type 0) : Type 0 where
  pub targets : Targets S
  pub firmware_version : ℕ

-- `HashMap::get`
abbrev pub find : {S : Type 0} → TargetAddr → Targets S → Option (Target S)
find a [] = none
find a ((b, t) ∷ ts) = if addr_eq a b then some t else find a ts

-- A new value under a key, in its place; a new key comes last.
abbrev pub replace : {S : Type 0} → TargetAddr → Target S → Targets S → Targets S
replace a t [] = (a, t) ∷ []
replace a t ((b, u) ∷ ts) = if addr_eq a b then (b, t) ∷ ts else (b, u) ∷ replace a t ts

abbrev pub keys : {S : Type 0} → Targets S → List TargetAddr
keys [] = []
keys ((a, _) ∷ ts) = a ∷ keys ts

-- `filter(..).copied().collect()`
abbrev pub filter : (TargetAddr → Bool) → List TargetAddr → List TargetAddr
filter p [] = []
filter p (a ∷ rest) = if p a then a ∷ filter p rest else filter p rest

-- `starts_with`
abbrev pub starts_with : Bytes → Bytes → Bool
starts_with text prefix = bytes_eq (take (length prefix) text) prefix

unfoldable pub address_matches : AoeFrame → TargetAddr → Bool
address_matches frame addr =
    let shelf_match = frame.header.shelf == addr.shelf || frame.header.shelf == broadcast_shelf in
    let slot_match = frame.header.slot == addr.slot || frame.header.slot == broadcast_slot in
    shelf_match && slot_match

abbrev pub config_header_of : AoePayload → Outcome AoeError ConfigHeader
config_header_of (ata_payload _ _) = err (bad_argument expected_config_payload)
config_header_of (config_payload header) = ok header

module _ {S : Type 0} where
  abbrev pub new : TargetManager S
  new = record { targets = []; firmware_version = 0x4019 }

  unfoldable pub add_target : ℕ → ℕ → S → Bytes → TargetManager S → TargetManager S
  add_target shelf slot storage config_string m = record {
    targets =
        replace (record { shelf = shelf; slot = slot })
          (record { storage = storage; config_string = config_string }) m.targets;
    firmware_version = m.firmware_version;
  }

  abbrev pub config_answer : Target S → ℕ → ResponseData
  config_answer target firmware_version = config_response (record {
    buffer_count = 16;
    firmware_version = firmware_version;
    sector_count = max_sectors_standard;
    config_string = target.config_string;
  })

  unfoldable pub run_config :
      Target S → ℕ → ConfigHeader → ConfigCommand → Outcome AoeError ResponseData
  run_config target version header read = ok (config_answer target version)
  run_config target version header test_exact =
      if bytes_eq header.config_string target.config_string
      then ok (config_answer target version)
      else err device_unavailable
  run_config target version header test_prefix =
      if starts_with target.config_string header.config_string
      then ok (config_answer target version)
      else err device_unavailable
  run_config target version header set = err config_string_present
  run_config target version header force_set = err config_string_present

  -- `ok_or(AoeError::DeviceUnavailable)`
  abbrev pub available : Option (Target S) → Outcome AoeError (Target S)
  available none = err device_unavailable
  available (some t) = ok t

  unfoldable pub handle_config :
      AoeFrame → TargetAddr → TargetManager S → Outcome AoeError ResponseData
  unfolding run_config config_command
  handle_config frame addr m = do
    target ← available (find addr m.targets)
    header ← config_header_of frame.payload
    ccmd ← map_err unrecognized_command (config_command header)
    run_config target m.firmware_version header ccmd
