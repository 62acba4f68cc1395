-- ===== src/Storage/Cas.antt =====
-- src/storage/cas/mod.rs: the blocks of a `CasBackend`, and the loop that reads them. LZ4 is a
-- parameter (`Codec`), and so is the text of an error.
pub mod Backend
pub mod Block
pub mod Disk
pub mod Written
pub mod Rounds
pub mod Chunks
pub mod Laws
pub mod Archive
pub mod History
pub mod Restore
pub mod Fresh
pub mod Refines
use vo_e.Common.{
  ℕ, zero, suc, ◌+◌, ◌*◌, ◌/◌, ◌%◌, ◌^◌, Bytes, Bool, true, false, ◌&&◌, if◌then◌else◌, ltb, ◌==◌,
  length, take, drop, replicate, Option, none, some, List, [], ◌∷◌, ◌++◌, Outcome, ok, err, map_err,
  ◌>>=◌, ErrorKind,
}
use vo_e.Blob.{Hash, zero_hash, is_zero, BlobStore, BlobError}
use vo_e.Tree
use vo_e.Tree.{MerkleTree}
use vo_e.Storage.{StorageError}

-- `compress_prepend_size` and `decompress_size_prepended`
pub record Codec : Type 0 where
  pub compress : Bytes → Bytes
  pub decompress : Bytes → Option Bytes

abbrev pub all_zero : Bytes → Bool
all_zero [] = true
all_zero (b ∷ bs) = (b == 0) && all_zero bs

-- `data.chunks(512)`, on fuel
unfoldable pub chunks : ℕ → Bytes → List Bytes
chunks zero d = []
chunks (suc fuel) [] = []
chunks (suc fuel) (x ∷ xs) = take 512 (x ∷ xs) ∷ chunks fuel (drop 512 (x ∷ xs))

module _ (codec : Codec) (compress : Bool) where
  -- The stored form of a block: a marker, and the block or its compressed form.
  unfoldable pub encoded : Bytes → Bytes
  encoded contents =
      let compressed = codec.compress contents in
      if compress
      then (if ltb (length compressed) (length contents)
          then 0x01 ∷ compressed
          else 0x00 ∷ contents)
      else 0x00 ∷ contents

-- The contents of a stored form.
unfoldable pub decoded : Codec → Bytes → Outcome StorageError Bytes
decoded codec [] = err StorageError.corrupted
decoded codec (marker ∷ payload) =
    if marker == 0x00
    then ok payload
    else if marker == 0x01
    then decompressed (codec.decompress payload)
    else err StorageError.corrupted
  where
    decompressed : Option Bytes → Outcome StorageError Bytes
    decompressed none = err StorageError.corrupted
    decompressed (some d) = ok d

module _ {S : Type 0} (store : BlobStore S) (codec : Codec) (describe : BlobError → Bytes) where
  -- `map_err(|e| StorageError::Backend(e.to_string()))`
  abbrev pub as_backend : BlobError → StorageError
  as_backend e = StorageError.backend (describe e)

  unfoldable pub retrieve_block : Hash → S → Outcome StorageError Bytes
  unfolding decoded
  retrieve_block hash s =
      if is_zero hash
      then ok (replicate 512 0)
      else (do stored_data ← map_err as_backend (store.get hash s); decoded codec stored_data)

  -- The loop of `read`: `count` sectors from the `i`-th on.
  unfoldable pub read_blocks : ℕ → ℕ → MerkleTree → ℕ → S → Outcome StorageError Bytes
  unfolding retrieve_block
  read_blocks zero i tree lba s = ok []
  read_blocks (suc count) i tree lba s = do
    data_hash ← map_err as_backend (Tree.lookup store tree ((lba + i) % 2 ^ 64) s)
    block ← retrieve_block data_hash s
    rest ← read_blocks count (suc i) tree lba s
    ok (block ++ rest)
