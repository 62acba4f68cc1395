-- ===== src/Cas/Client.antt =====
-- src/storage/cas_client.rs: the backend that keeps sectors in a CAS service, with an index of hashes.
-- The connection, the file of the index and the texts of errors are parameters.
pub mod Index
pub mod Open
pub mod Sectors
use vo_e.Common.{
  ℕ, zero, suc, ◌+◌, ◌-◌, ◌*◌, ◌/◌, ◌%◌, ◌^◌, Bytes, Bool, true, codes, if◌then◌else◌, not, ltb,
  ◌==◌, length, take, drop, replicate, Option, none, some, List, [], ◌∷◌, ◌++◌, Outcome, ok, err,
  ErrorKind,
}
use vo_e.Common.Io.{Io, pure, fail, lift, map_err, ◌>>=◌, ◌>>◌}
use vo_e.Common.Stream.{Reader, Writer}
use vo_e.Storage.{StorageError, DeviceInfo, BlockStorage}
use vo_e.Cas.{CasCommand, read_frame, write_frame}

abbrev pub sector_size : ℕ
sector_size = 512

-- A `HashMap` is a list of its entries, one for each key.
pub record LbaIndex : Type 0 where
  pub mappings : List (ℕ × Bytes)
  pub zero_block_hash : Bytes

-- `get`, `remove` and `insert` of the map
abbrev pub get : ℕ → List (ℕ × Bytes) → Option Bytes
get lba [] = none
get lba ((k, hash) ∷ rest) = if k == lba then some hash else get lba rest

abbrev pub remove : ℕ → List (ℕ × Bytes) → List (ℕ × Bytes)
remove lba [] = []
remove lba ((k, hash) ∷ rest) = if k == lba then remove lba rest else (k, hash) ∷ remove lba rest

abbrev pub insert : ℕ → Bytes → List (ℕ × Bytes) → List (ℕ × Bytes)
insert lba hash m = (lba, hash) ∷ remove lba m

-- The calls of the file at the index's path; `create_dir_all` is of its parent, if it has one.
pub record IndexFile (F : Type 0) : Type 0 where
  pub create_dir_all : Io F ErrorKind (Unit {0})
  pub create : Io F ErrorKind (Unit {0})
  pub to_writer_pretty : LbaIndex → Io F ErrorKind (Unit {0})

pub record Client (R W F : Type 0) : Type 0 where
  pub reader : R
  pub writer : W
  pub index : LbaIndex
  pub files : F
  pub info : DeviceInfo

abbrev pub hash_of_lba : LbaIndex → ℕ → Bytes
hash_of_lba index lba = or_zero (get lba index.mappings)
  where
    or_zero : Option Bytes → Bytes
    or_zero none = index.zero_block_hash
    or_zero (some hash) = hash

abbrev pub write_answer : CasCommand × Bytes → Outcome StorageError Bytes
write_answer (CasCommand.write, hash_data) =
    if length hash_data == 32
    then ok hash_data
    else err (StorageError.backend (codes "invalid CAS write response"))
write_answer (command, hash_data) = err (StorageError.backend (codes "invalid CAS write response"))

abbrev pub read_answer : CasCommand × Bytes → Outcome StorageError Bytes
read_answer (CasCommand.read, contents) = ok contents
read_answer (command, contents) = err (StorageError.backend (codes "invalid CAS read response"))

module _ {R W F : Type 0} (reader : Reader R) (writer : Writer W) (file : IndexFile F)
    (describe : ErrorKind → Bytes) where
  -- `StorageError::Backend(format!("..: {}", e))`
  abbrev pub failed : Bytes → ErrorKind → StorageError
  failed text e = StorageError.backend (text ++ describe e)

  abbrev pub on_reader : {A : Type 0} → Bytes → Io R ErrorKind A → Io (Client R W F) StorageError A
  on_reader text m c = let (r, x) = map_err (failed text) m c.reader in (r, record c { reader = x })

  abbrev pub on_writer : {A : Type 0} → Bytes → Io W ErrorKind A → Io (Client R W F) StorageError A
  on_writer text m c = let (r, x) = map_err (failed text) m c.writer in (r, record c { writer = x })

  abbrev pub on_files : {A : Type 0} → Bytes → Io F ErrorKind A → Io (Client R W F) StorageError A
  on_files text m c = let (r, x) = map_err (failed text) m c.files in (r, record c { files = x })

  unfoldable pub write_to_cas : Bytes → Io (Client R W F) StorageError Bytes
  unfolding write_frame read_frame
  write_to_cas contents = do
    on_writer (codes "failed to write to CAS: ") (write_frame writer CasCommand.write contents)
    answer ← on_reader (codes "failed to read CAS write response: ") (read_frame reader)
    lift (write_answer answer)

  unfoldable pub read_from_cas : Bytes → Io (Client R W F) StorageError Bytes
  unfolding write_frame read_frame
  read_from_cas hash = do
    on_writer (codes "failed to read from CAS: ") (write_frame writer CasCommand.read hash)
    answer ← on_reader (codes "failed to read CAS read response: ") (read_frame reader)
    lift (read_answer answer)

  -- `save_index`
  unfoldable pub save_index : Io (Client R W F) StorageError (Unit {0})
  save_index c =
      (do
        on_files (codes "failed to create index dir: ") file.create_dir_all
        on_files (codes "failed to create index: ") file.create
        on_files (codes "failed to write index: ") (file.to_writer_pretty c.index))
        c

  -- One round of the loop of `read`; `wrong_size` is the text for an answer of another length.
  unfoldable pub read_sector : (ℕ → Bytes) → ℕ → Io (Client R W F) StorageError Bytes
  unfolding read_from_cas
  read_sector wrong_size lba c =
      (do
        contents ← read_from_cas (hash_of_lba c.index lba)
        if length contents == sector_size
            then pure contents
            else fail (StorageError.backend (wrong_size (length contents))))
        c

  unfoldable pub read_sectors : (ℕ → Bytes) → ℕ → ℕ → ℕ → Io (Client R W F) StorageError Bytes
  unfolding read_sector
  read_sectors wrong_size zero i lba = pure []
  read_sectors wrong_size (suc count) i lba = do
    contents ← read_sector wrong_size ((lba + i) % 2 ^ 64)
    rest ← read_sectors wrong_size count (suc i) lba
    pure (contents ++ rest)

  -- `read` of the trait: the range is not tested.
  unfoldable pub read : (ℕ → Bytes) → ℕ → ℕ → Io (Client R W F) StorageError Bytes
  unfolding read_sectors
  read wrong_size lba count = read_sectors wrong_size count 0 lba

  abbrev pub map_sector : ℕ → Bytes → Io (Client R W F) StorageError (Unit {0})
  map_sector lba hash c = (
    ok tt,
    record c {
      index = record {
        mappings = insert lba hash c.index.mappings;
        zero_block_hash = c.index.zero_block_hash;
      };
    },
  )

  -- One round of the loop of `write`.
  unfoldable pub write_sector : ℕ → Bytes → Io (Client R W F) StorageError (Unit {0})
  unfolding write_to_cas
  write_sector lba sector_data = do hash ← write_to_cas sector_data; map_sector lba hash

  -- The sector from `offset` on, with zeros after the end of the data.
  abbrev pub padded : Bytes → ℕ → Bytes
  padded contents offset =
      let piece = take sector_size (drop offset contents) in
      piece ++ replicate (sector_size - length piece) 0

  unfoldable pub write_sectors : ℕ → ℕ → ℕ → Bytes → Io (Client R W F) StorageError (Unit {0})
  unfolding write_sector
  write_sectors zero i lba contents = pure tt
  write_sectors (suc count) i lba contents = do
    write_sector ((lba + i) % 2 ^ 64) (padded contents (i * sector_size))
    write_sectors count (suc i) lba contents

  -- `write` of the trait: the range is not tested.
  unfoldable pub write : ℕ → Bytes → Io (Client R W F) StorageError (Unit {0})
  unfolding write_sectors save_index
  write lba contents =
      let count = (length contents + sector_size - 1) / sector_size in
      if ltb 255 count
      then fail (StorageError.invalid_sector_count (count % 2 ^ 8))
      else do write_sectors count 0 lba contents; save_index

  abbrev pub client_storage : (ℕ → Bytes) → BlockStorage (Client R W F)
  client_storage wrong_size = record {
    read = read wrong_size;
    write = write;
    flush = save_index;
    info = λ c. c.info;
  }
