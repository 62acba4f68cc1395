-- ===== src/Storage/File.antt =====
-- src/storage/file.rs: `FileBackend`. `std::fs::File` is a parameter: `FileHandle` has the calls
-- that the backend makes of the open file.
pub mod Laws
pub mod Open
use vo_e.Common.{
  ℕ, zero, ◌+◌, ◌*◌, ◌/◌, ◌%◌, ◌^◌, ◌≤◌, ◌<◌, ◌≡◌, Bytes, Bool, true, length, Outcome, ok, err,
  ErrorKind, ltb, if◌then◌else◌,
}
use vo_e.Common.Io.{Io, pure, lift, map_err, ◌>>=◌, ◌>>◌}
use vo_e.Storage.{StorageError, io, DeviceInfo, BlockStorage, validate_range}

-- `read_exact` takes the length of the buffer and returns its new contents.
pub record FileHandle (F : Type 0) : Type 0 where
  pub seek : ℕ → Io F ErrorKind (Unit {0})
  pub read_exact : ℕ → Io F ErrorKind Bytes
  pub write_all : Bytes → Io F ErrorKind (Unit {0})
  pub sync_all : Io F ErrorKind (Unit {0})
  pub set_len : ℕ → Io F ErrorKind (Unit {0})
  pub metadata_len : F → Outcome ErrorKind ℕ

pub record FileBackend (F : Type 0) : Type 0 where
  pub file : F
  pub info : DeviceInfo

module _ {F : Type 0} (handle : FileHandle F) where
  -- A call of the file, its error as `StorageError::Io`.
  unfoldable pub on_file : {A : Type 0} → Io F ErrorKind A → Io (FileBackend F) StorageError A
  on_file m b = let (r, file) = map_err io m b.file in (r, record { file = file; info = b.info })

  abbrev info_of : FileBackend F → DeviceInfo
  info_of b = b.info

  unfoldable pub read : ℕ → ℕ → Io (FileBackend F) StorageError Bytes
  unfolding validate_range on_file
  read lba count b =
      (do
        lift (validate_range b.info lba count)
        on_file (handle.seek (lba * b.info.sector_size % 2 ^ 64))
        on_file (handle.read_exact (count * b.info.sector_size)))
        b

  unfoldable pub write : ℕ → Bytes → Io (FileBackend F) StorageError (Unit {0})
  unfolding validate_range on_file
  write lba contents b =
      (do
        lift (validate_range b.info lba (length contents / b.info.sector_size % 2 ^ 8))
        on_file (handle.seek (lba * b.info.sector_size % 2 ^ 64))
        on_file (handle.write_all contents))
        b

  unfoldable pub flush : Io (FileBackend F) StorageError (Unit {0})
  unfolding on_file
  flush = on_file handle.sync_all

  abbrev pub file_backend : BlockStorage (FileBackend F)
  file_backend = record { read = read; write = write; flush = flush; info = info_of }
