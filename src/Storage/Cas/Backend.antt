-- ===== src/Storage/Cas/Backend.antt =====
-- src/storage/cas/mod.rs: `CasBackend`, a device whose sectors are blobs under a Merkle tree. BLAKE3
-- (`from_data`), LZ4, the hexadecimal coding, the texts of errors and the file of snapshots are
-- parameters.
use vo_e.Common.{
  ℕ, suc, ◌+◌, ◌/◌, ◌%◌, ◌^◌, Bytes, Bool, if◌then◌else◌, length, List, [], ◌∷◌, Outcome, ok, err,
}
use vo_e.Common.Io.{Io, pure, lift, map_err, ◌>>=◌, ◌>>◌}
use vo_e.Blob.{Hash, zero_hash, BlobStore, BlobError}
use vo_e.Tree
use vo_e.Tree.{MerkleTree}
use vo_e.Tree.Update.{update}
use vo_e.Storage.{StorageError, DeviceInfo, BlockStorage, validate_range}
use vo_e.Storage.Snapshot.{SnapshotManager}
use vo_e.Storage.Cas.{Codec, all_zero, chunks, encoded, as_backend, read_blocks}

module _ {S : Type 0} (from_data : Bytes → Hash) (store : BlobStore S) (codec : Codec)
    (describe : BlobError → Bytes) (compress : Bool) where
  unfoldable pub store_block : Bytes → Io S StorageError Hash
  unfolding encoded
  store_block contents s =
      let stored_data = encoded codec compress contents in
      let hash = from_data stored_data in
      if all_zero contents
      then (ok zero_hash, s)
      else (do map_err (as_backend store codec describe) (store.put hash stored_data); pure hash) s

  -- One round of the loop of `write`.
  unfoldable pub write_block : MerkleTree → ℕ → Bytes → Io S StorageError MerkleTree
  unfolding store_block update
  write_block tree lba chunk = do
    data_hash ← store_block chunk
    map_err (as_backend store codec describe) (update from_data store tree lba data_hash)

  -- The loop of `write`, from the `i`-th chunk on.
  unfoldable pub write_chunks : List Bytes → ℕ → MerkleTree → ℕ → Io S StorageError MerkleTree
  unfolding write_block
  write_chunks [] i tree lba = pure tree
  write_chunks (chunk ∷ rest) i tree lba = do
    tree' ← write_block tree ((lba + i) % 2 ^ 64) chunk
    write_chunks rest (suc i) tree' lba

-- The blob store's state, and the backend's own fields.
pub record CasBackend (S F : Type 0) : Type 0 where
  pub blobs : S
  pub root_hash : Hash
  pub info : DeviceInfo
  pub snapshots : SnapshotManager F
  pub compress : Bool

-- `MerkleTree::new` of the current root
abbrev pub tree_of : {S F : Type 0} → CasBackend S F → MerkleTree
tree_of b = Tree.new b.root_hash b.info.total_sectors

module _ {S F : Type 0} (from_data : Bytes → Hash) (store : BlobStore S) (codec : Codec)
    (describe : BlobError → Bytes) where
  unfoldable pub read : ℕ → ℕ → Io (CasBackend S F) StorageError Bytes
  unfolding validate_range read_blocks
  read lba count b =
      (do
        lift (validate_range b.info lba count)
        lift (read_blocks store codec describe count 0 (tree_of b) lba b.blobs))
        b

  -- What is left of the backend: the new root if all chunks were written, else the old one.
  abbrev pub written :
      CasBackend S F
      → Outcome StorageError MerkleTree × S
      → Outcome StorageError (Unit {0}) × CasBackend S F
  written b (ok tree, s) = (ok tt, record b { blobs = s; root_hash = tree.root_hash })
  written b (err e, s) = (err e, record b { blobs = s })

  unfoldable pub write : ℕ → Bytes → Io (CasBackend S F) StorageError (Unit {0})
  unfolding validate_range write_chunks chunks
  write lba contents = do
    (λ b. (validate_range b.info lba (length contents / 512 % 2 ^ 8), b))
    (λ b. written b (
        write_chunks from_data store codec describe b.compress (chunks (length contents) contents) 0
          (tree_of b) lba b.blobs))

  unfoldable pub flush : Io (CasBackend S F) StorageError (Unit {0})
  flush b =
      let (r, s) = map_err (as_backend store codec describe) store.sync b.blobs in
      (r, record b { blobs = s })

  abbrev pub cas_backend : BlockStorage (CasBackend S F)
  cas_backend = record { read = read; write = write; flush = flush; info = λ b. b.info }
