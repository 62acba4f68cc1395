-- ===== src/Blob/File.antt =====
-- src/blob/file.rs: `FileBlobStore`. The file system and the hexadecimal coding are no part of the
-- repository: `Fs` has the calls that the store makes, `FsLaws` what it relies on of them.
pub mod Write
pub mod Laws
pub mod Memory
use vo_e.Common.{
  ℕ, Bytes, ◌≡◌, ◌≢◌, Bool, true, false, not, Option, none, some, take, drop, ◌++◌, [], Outcome, ok,
  err, ErrorKind, bytes_eq, if◌then◌else◌,
}
use vo_e.Common.Io.{Io, pure, fail, map_err, ◌>>=◌, ◌>>◌}
use vo_e.Blob.{Hash, BlobError, BlobStore}

-- `root/prefix/rest`, with or without the extension `tmp`
pub record FilePath : Type 0 where
  pub prefix : Bytes
  pub rest : Bytes
  pub tmp : Bool

pub record Fs (D : Type 0) : Type 0 where
  pub exists : FilePath → D → Bool
  pub read : FilePath → D → Outcome ErrorKind Bytes
  pub create_dir_all : Bytes → Io D ErrorKind (Unit {0})
  pub create : FilePath → Io D ErrorKind (Unit {0})
  pub write_all : FilePath → Bytes → Io D ErrorKind (Unit {0})
  pub sync_all : FilePath → Io D ErrorKind (Unit {0})
  pub rename : FilePath → FilePath → Io D ErrorKind (Unit {0})
  pub remove_file : FilePath → Io D ErrorKind (Unit {0})

-- `content` is the file under a path, if there is one. A call that fails may have changed the file
-- that it works on, and no other; a `rename` that fails leaves its target alone.
pub record FsLaws {D : Type 0} (fs : Fs D) : Type 0 where
  pub content : FilePath → D → Option Bytes
  pub exists_none : (p : FilePath) (d : D) → content p d ≡ none → fs.exists p d ≡ false
  pub exists_some : (p : FilePath) (d : D) (x : Bytes) → content p d ≡ some x → fs.exists p d ≡ true
  pub read_some : (p : FilePath) (d : D) (x : Bytes) → content p d ≡ some x → fs.read p d ≡ ok x
  pub create_dir_all_keeps :
      (q : Bytes) (p : FilePath) (d : D) → content p (fs.create_dir_all q d).1 ≡ content p d
  pub create_keeps : (q p : FilePath) (d : D) → p ≢ q → content p (fs.create q d).1 ≡ content p d
  pub write_all_keeps :
      (q p : FilePath) (x : Bytes) (d : D) → p ≢ q → content p (fs.write_all q x d).1 ≡ content p d
  pub sync_all_keeps : (q p : FilePath) (d : D) → content p (fs.sync_all q d).1 ≡ content p d
  pub rename_keeps :
      (a b p : FilePath) (d : D) → p ≢ a → p ≢ b → content p (fs.rename a b d).1 ≡ content p d
  pub rename_failed :
      (a b : FilePath) (d : D) (e : ErrorKind)
      → (fs.rename a b d).0 ≡ err e
      → a ≢ b
      → content b (fs.rename a b d).1 ≡ content b d
  pub create_ok :
      (q : FilePath) (d : D) → (fs.create q d).0 ≡ ok tt → content q (fs.create q d).1 ≡ some []
  pub write_all_ok :
      (q : FilePath) (x y : Bytes) (d : D)
      → content q d ≡ some x
      → (fs.write_all q y d).0 ≡ ok tt
      → content q (fs.write_all q y d).1 ≡ some (x ++ y)
  pub rename_ok :
      (a b : FilePath) (d : D)
      → (fs.rename a b d).0 ≡ ok tt
      → content b (fs.rename a b d).1 ≡ content a d

module _ (hex_encode : Bytes → Bytes) where
  unfoldable pub path_for : Hash → FilePath
  path_for hash =
      let hex = hex_encode hash in record { prefix = take 2 hex; rest = drop 2 hex; tmp = false }

  unfoldable pub dir_for : Hash → Bytes
  dir_for hash = take 2 (hex_encode hash)

-- `path.with_extension("tmp")`
unfoldable pub with_tmp : FilePath → FilePath
with_tmp path = record path { tmp = true }

module _ {D : Type 0} (from_data : Bytes → Hash) (hex_encode : Bytes → Bytes) (fs : Fs D) where
  -- The file written under its temporary name and renamed.
  unfoldable pub write_file : FilePath → Bytes → Io D ErrorKind (Unit {0})
  unfolding with_tmp
  write_file path data' = do
    fs.create (with_tmp path)
    fs.write_all (with_tmp path) data'
    fs.sync_all (with_tmp path)
    fs.rename (with_tmp path) path

  unfoldable pub put : Hash → Bytes → Io D BlobError (Unit {0})
  unfolding path_for dir_for write_file
  put hash data' d =
      let path = path_for hex_encode hash in
      let actual_hash = from_data data' in
      let write : Io D ErrorKind (Unit {0}) = do
        fs.create_dir_all (dir_for hex_encode hash)
        write_file path data'
      in if fs.exists path d
        then (ok tt, d)
        else if not (bytes_eq actual_hash hash)
        then (err (BlobError.hash_mismatch hash actual_hash), d)
        else map_err BlobError.io write d

  unfoldable pub get : Hash → D → Outcome BlobError Bytes
  unfolding path_for
  get hash d =
      let path = path_for hex_encode hash in
      let found : Outcome BlobError Bytes = elim (fs.read path d) [
        | ok data' ↦
            if not (bytes_eq (from_data data') hash)
            then err (BlobError.corrupted hash)
            else ok data'
        | err e ↦ err (BlobError.io e)
      ] in
      if not (fs.exists path d) then err (BlobError.not_found hash) else found

  unfoldable pub exists : Hash → D → Outcome BlobError Bool
  unfolding path_for
  exists hash d = ok (fs.exists (path_for hex_encode hash) d)

  unfoldable pub delete : Hash → Io D BlobError (Unit {0})
  unfolding path_for
  delete hash d =
      let path = path_for hex_encode hash in
      if fs.exists path d then map_err BlobError.io (fs.remove_file path) d else (ok tt, d)

  unfoldable pub sync : Io D BlobError (Unit {0})
  sync = pure tt

  unfoldable pub file_blob_store : BlobStore D
  unfolding put get exists delete sync
  file_blob_store = record { put = put; get = get; exists = exists; delete = delete; sync = sync }
