-- ===== src/Storage/Cas/Disk.antt =====
-- The bytes that a tree of blocks stands for.
use vo_e.Common.{
  ℕ, zero, suc, ◌+◌, ◌%◌, ◌^◌, ◌≤◌, ◌<◌, ◌≡◌, refl, ap, ◌∙◌, arith, Bytes, replicate, length, ◌++◌,
  Outcome, ok, err, map_err, row, ◌>>=◌,
}
use vo_e.Blob.{Hash, BlobStore, BlobError}
use vo_e.Tree.{MerkleTree, lookup}
use vo_e.Tree.Keeps.{Keeps}
use vo_e.Tree.Correct.{IsWhole, IsWhole-Keeps, lookup-Keeps}
use vo_e.Storage.{StorageError}
use vo_e.Storage.Cas.{Codec, as_backend, retrieve_block, read_blocks}
use vo_e.Storage.Cas.Block.{retrieve_block-Keeps}

abbrev pub or_zeros : Outcome StorageError Bytes → Bytes
or_zeros (ok d) = d
or_zeros (err e) = replicate 512 0

module _ {S : Type 0} (store : BlobStore S) (codec : Codec) (describe : BlobError → Bytes) where
  abbrev pub read_block : MerkleTree → ℕ → S → Outcome StorageError Bytes
  read_block tree j s = map_err (as_backend store codec describe) (lookup store tree j s) >>= λ h.
      retrieve_block store codec describe h s

  -- The block of sector `j`.
  abbrev pub block_at : MerkleTree → S → ℕ → Bytes
  block_at tree s j = or_zeros (read_block tree j s)

  -- A whole tree under a root of 32 bytes, each of whose sectors has a hash with a block of 512 bytes.
  pub record IsDisk (tree : MerkleTree) (s : S) : Type 0 where
    pub whole : IsWhole store tree s
    pub root : length tree.root_hash ≡ 32
    pub sectors :
        (j : ℕ)
        → j < tree.total_sectors
        → (h : Hash) × (d : Bytes) × (lookup store tree j s ≡ ok h)
          × (retrieve_block store codec describe h s ≡ ok d)
          × (length d ≡ 512)

  pub IsDisk-read_block :
      {tree : MerkleTree} {s : S} (disk : IsDisk tree s) (j : ℕ) (small : j < tree.total_sectors)
      → (read_block tree j s ≡ ok (block_at tree s j)) × (length (block_at tree s j) ≡ 512)
  IsDisk-read_block disk j small =
      let (h, d, found, got, wide) = disk.sectors j small in rw (found, got) (refl, wide)

  -- At a later state of the store the disk is the same.
  pub IsDisk-Keeps :
      {tree : MerkleTree} {s t : S}
      → Keeps store s t
      → IsDisk tree s
      → IsDisk tree t × ((j : ℕ) → j < tree.total_sectors → block_at tree t j ≡ block_at tree s j)
  IsDisk-Keeps {tree} {s} {t} kept disk = (
    record {
      whole = IsWhole-Keeps store kept disk.whole;
      root = disk.root;
      sectors = λ j small.
          let (h, d, found, got, wide) = disk.sectors j small in
          (
            h,
            d,
            lookup-Keeps store tree kept disk.whole j small ∙ found,
            retrieve_block-Keeps store codec describe h d kept got,
            wide,
          );
    },
    λ j small.
        let (h, d, found, got, wide) = disk.sectors j small in
        let found' = lookup-Keeps store tree kept disk.whole j small ∙ found in
        rw (found', found, retrieve_block-Keeps store codec describe h d kept got, got) refl,
  )

  -- `read_blocks` reads a row of blocks.
  pub read_blocks-eq-row :
      {tree : MerkleTree} {s : S} (disk : IsDisk tree s) (lba i count : ℕ)
      → lba + i + count ≤ tree.total_sectors
      → tree.total_sectors < 2 ^ 55
      → read_blocks store codec describe count i tree lba s
        ≡ ok (row (lba + i) count (block_at tree s))
  unfolding read_blocks
  read_blocks-eq-row disk lba i zero fits few = refl
  read_blocks-eq-row {tree} {s} disk lba i (suc count) fits few =
      let small : lba + i < tree.total_sectors = omega (arith, fits) in
      let same : (lba + i) % 2 ^ 64 ≡ lba + i = omega (arith, fits, few) in
      let (h, d, found, got, wide) = disk.sectors (lba + i) small in
      rw (same, found, got, read_blocks-eq-row disk lba (suc i) count (omega (arith, fits)) few)
        (ap (λ k. ok (d ++ row k count (block_at tree s)))
          (let e : lba + suc i ≡ suc (lba + i) = omega arith in e))
