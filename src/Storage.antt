-- ===== src/Storage.antt =====
-- src/storage/mod.rs: the errors and the trait of a block device. A string is its UTF-8 bytes.
pub mod Laws
pub mod File
pub mod Snapshot
pub mod Cas
use vo_e.Common.{
  ℕ, ◌+◌, ◌%◌, ◌^◌, ◌≡◌, Bytes, Bool, true, if◌then◌else◌, ltb, Outcome, ok, err, ErrorKind, [],
}
use vo_e.Common.Io.{Io}

pub data StorageError : Type 0 where
  io : ErrorKind → StorageError
  out_of_range : ℕ → ℕ → StorageError
  invalid_sector_count : ℕ → StorageError
  backend : Bytes → StorageError
  read_only corrupted : StorageError

pub record DeviceInfo : Type 0 where
  pub model : Bytes
  pub serial : Bytes
  pub firmware : Bytes
  pub total_sectors : ℕ
  pub sector_size : ℕ
  pub lba48 : Bool

-- The trait over a device's state `S`; `read` takes a `u8` count.
pub record BlockStorage (S : Type 0) : Type 0 where
  pub read : ℕ → ℕ → Io S StorageError Bytes
  pub write : ℕ → Bytes → Io S StorageError (Unit {0})
  pub flush : Io S StorageError (Unit {0})
  pub info : S → DeviceInfo

-- The trait's default method, of the device's `info`.
unfoldable pub validate_range : DeviceInfo → ℕ → ℕ → Outcome StorageError (Unit {0})
validate_range info lba count =
    let end_lba = (lba + count) % 2 ^ 64 in
    if ltb info.total_sectors end_lba then err (out_of_range lba info.total_sectors) else ok tt
