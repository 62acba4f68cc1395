-- ===== src/Ata/Access.antt =====
-- What an ATA command does to the device: one call at most, on sectors the device has.
use vo_e.Common.{
  ℕ, ◌+◌, ◌*◌, ◌%◌, ◌≡◌, ◌≤◌, inl, inr, refl, arith, Bytes, Bool-cases, ==_iff, length, ltb, ◌==◌,
  Outcome, ok, err, Outcome-cases,
}
use vo_e.Protocol.Types.{
  AtaHeader, AtaCommand, read_sectors, read_sectors_ext, write_sectors, write_sectors_ext,
  identify_device, flush_cache, flush_cache_ext, ata_command, sector_size, error_abrt, error_unc,
}
use vo_e.Protocol.Build.{AtaResponse}
use vo_e.Storage.{StorageError, BlockStorage}
use vo_e.Ata.{
  handle_ata_command, run_command, handle_read, handle_write, handle_identify, handle_flush,
  respond, success, success_with_data, request_start, request_count,
}

-- One permitted call of the device, or none.
pub data Access {S : Type 0} (storage : BlockStorage S) (s u : S) : Type 0 where
  untouched : u ≡ s → Access storage s u
  reads :
      (lba count : ℕ)
      → lba + count ≤ (storage.info s).total_sectors
      → u ≡ (storage.read lba count s).1
      → Access storage s u
  writes :
      (lba count : ℕ) (contents : Bytes)
      → lba + count ≤ (storage.info s).total_sectors
      → length contents ≡ count * sector_size
      → u ≡ (storage.write lba contents s).1
      → Access storage s u
  flushes : u ≡ (storage.flush s).1 → Access storage s u

module _ {S : Type 0} (storage : BlockStorage S) where
  pub respond_state :
      {A : Type 0} (answer : A → AtaResponse) (code : ℕ) (m : Outcome StorageError A × S)
      → (respond answer code m).1 ≡ m.1
  respond_state answer code (ok a, s) = refl
  respond_state answer code (err e, s) = refl

  handle_read-Access :
      (header : AtaHeader) (s : S) → Access storage s (handle_read storage header s).1
  unfolding handle_read
  handle_read-Access header s =
      let lba = request_start header in
      let count = request_count header in
      elim (Bool-cases (ltb (storage.info s).total_sectors (lba + count))) [
        | inl e ↦ rw e (untouched refl)
        | inr e ↦
            rw
              (
                e,
                respond_state (λ contents. success_with_data contents header.sector_count) error_unc
                    (storage.read lba (count % 256) s),
              )
              (reads lba (count % 256) (ground (arith, e)) refl)
      ]

  handle_write-Access :
      (header : AtaHeader) (contents : Bytes) (s : S)
      → Access storage s (handle_write storage header contents s).1
  unfolding handle_write
  handle_write-Access header contents s =
      let lba = request_start header in
      let count = request_count header in
      elim (Bool-cases (length contents == count * sector_size)) [
        | inr e ↦ rw e (untouched refl)
        | inl e ↦ elim (Bool-cases (ltb (storage.info s).total_sectors (lba + count))) [
          | inl over ↦ rw (e, over) (untouched refl)
          | inr fits ↦
              rw
                (
                  e,
                  fits,
                  respond_state (λ (_ : Unit {0}). success) error_unc
                      (storage.write lba contents s),
                )
                (writes lba count contents (ground (arith, fits))
                  ((==_iff (length contents) (count * sector_size)).0 e) refl)
        ]
      ]

  run_command-Access :
      (cmd : AtaCommand) (header : AtaHeader) (contents : Bytes) (s : S)
      → Access storage s (run_command storage cmd header contents s).1
  unfolding run_command handle_identify handle_flush
  run_command-Access read_sectors header contents s = handle_read-Access header s
  run_command-Access read_sectors_ext header contents s = handle_read-Access header s
  run_command-Access write_sectors header contents s = handle_write-Access header contents s
  run_command-Access write_sectors_ext header contents s = handle_write-Access header contents s
  run_command-Access identify_device header contents s = untouched refl
  run_command-Access flush_cache header contents s =
      flushes (respond_state (λ (_ : Unit {0}). success) error_abrt (storage.flush s))
  run_command-Access flush_cache_ext header contents s =
      flushes (respond_state (λ (_ : Unit {0}). success) error_abrt (storage.flush s))

  -- Whatever the command, its registers and its data, a device gets at most one call, and a call
  -- that reads or writes stays within its sectors.
  pub handle_ata_command-Access :
      (header : AtaHeader) (contents : Bytes) (s : S)
      → Access storage s (handle_ata_command storage header contents s).1
  unfolding handle_ata_command
  handle_ata_command-Access header contents s =
      elim (Outcome-cases (ata_command header.cmd_status)) [
        | inl (cmd, e) ↦ rw e (run_command-Access cmd header contents s)
        | inr (value, e) ↦ rw e (untouched refl)
      ]
