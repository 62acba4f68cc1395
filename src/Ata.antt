-- ===== src/Ata.antt =====
-- src/protocol/ata.rs: ATA commands, carried out on a block device.
pub mod Identify
pub mod Access
pub mod Answers
use vo_e.Common.{
  ℕ, zero, ◌+◌, ◌*◌, ◌%◌, Bytes, Bool, true, false, not, if◌then◌else◌, ◌==◌, ltb, bit_or, Option,
  none, some, length, Outcome, ok, err,
}
use vo_e.Protocol.Types.{
  AtaHeader, AtaCommand, read_sectors, read_sectors_ext, write_sectors, write_sectors_ext,
  identify_device, flush_cache, flush_cache_ext, ata_command, lba28, lba48, sector_size, status_err,
  status_drdy, error_abrt, error_idnf, error_unc,
}
use vo_e.Protocol.Build.{AtaResponse}
use vo_e.Storage.{StorageError, BlockStorage}
use Identify.{build_identify_data}

abbrev pub success_with_data : Bytes → ℕ → AtaResponse
success_with_data contents sector_count = record {
  status = status_drdy;
  error = 0;
  sector_count = sector_count;
  contents = some contents;
}

abbrev pub success : AtaResponse
success = record { status = status_drdy; error = 0; sector_count = 0; contents = none }

abbrev pub error : ℕ → AtaResponse
error error_code = record {
  status = bit_or status_err status_drdy;
  error = error_code;
  sector_count = 0;
  contents = none;
}

-- The sectors that a command addresses.
unfoldable pub request_start : AtaHeader → ℕ
request_start header = if header.flags.extended then lba48 header else lba28 header

unfoldable pub request_count : AtaHeader → ℕ
request_count header = if header.sector_count == 0 then 256 else header.sector_count

module _ {S : Type 0} where
  -- `match` on the result of a storage call
  abbrev pub respond :
      {A : Type 0} → (A → AtaResponse) → ℕ → Outcome StorageError A × S → AtaResponse × S
  respond answer code (ok a, s) = (answer a, s)
  respond answer code (err e, s) = (error code, s)

  unfoldable pub handle_read : BlockStorage S → AtaHeader → S → AtaResponse × S
  unfolding request_start request_count
  handle_read storage header s =
      let lba = request_start header in
      let count = request_count header in
      if ltb (storage.info s).total_sectors (lba + count)
      then (error error_idnf, s)
      else respond (λ contents. success_with_data contents header.sector_count) error_unc
          (storage.read lba (count % 256) s)

  unfoldable pub handle_write : BlockStorage S → AtaHeader → Bytes → S → AtaResponse × S
  unfolding request_start request_count
  handle_write storage header contents s =
      let lba = request_start header in
      let count = request_count header in
      let expected_len = count * sector_size in
      if not (length contents == expected_len)
      then (error error_abrt, s)
      else if ltb (storage.info s).total_sectors (lba + count)
      then (error error_idnf, s)
      else respond (λ _. success) error_unc (storage.write lba contents s)

  unfoldable pub handle_identify : BlockStorage S → S → AtaResponse × S
  unfolding build_identify_data
  handle_identify storage s = (success_with_data (build_identify_data (storage.info s)) 1, s)

  unfoldable pub handle_flush : BlockStorage S → S → AtaResponse × S
  handle_flush storage s = respond (λ _. success) error_abrt (storage.flush s)

  unfoldable pub run_command : BlockStorage S → AtaCommand → AtaHeader → Bytes → S → AtaResponse × S
  unfolding handle_read handle_write handle_identify handle_flush
  run_command storage read_sectors header contents s = handle_read storage header s
  run_command storage read_sectors_ext header contents s = handle_read storage header s
  run_command storage write_sectors header contents s = handle_write storage header contents s
  run_command storage write_sectors_ext header contents s = handle_write storage header contents s
  run_command storage identify_device header contents s = handle_identify storage s
  run_command storage flush_cache header contents s = handle_flush storage s
  run_command storage flush_cache_ext header contents s = handle_flush storage s

  unfoldable pub handle_ata_command : BlockStorage S → AtaHeader → Bytes → S → AtaResponse × S
  unfolding run_command ata_command
  handle_ata_command storage header contents s = run (ata_command header.cmd_status)
    where
      run : Outcome ℕ AtaCommand → AtaResponse × S
      run (ok cmd) = run_command storage cmd header contents s
      run (err _) = (error error_abrt, s)
