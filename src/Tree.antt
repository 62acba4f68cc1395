-- ===== src/Tree.antt =====
-- src/storage/cas/tree.rs: the Merkle tree that maps sectors to content hashes.
pub mod Node
pub mod Update
pub mod Depth
pub mod Index
pub mod Shape
pub mod Keeps
pub mod Ascend
pub mod Correct
use vo_e.Common.{
  ℕ, zero, suc, ◌+◌, ◌-◌, ◌*◌, ◌^◌, ◌%◌, Bytes, Bool, if◌then◌else◌, ltb, leb, ◌==◌, shr, bit_and,
  List, [], ◌∷◌, length, take, drop, replicate, ◌++◌, Outcome, ok, err, ◌>>=◌,
}
use vo_e.Common.Io
use vo_e.Common.Io.{Io}
use vo_e.Blob.{Hash, zero_hash, is_zero, BlobStore, BlobError, lba_out_of_range}

abbrev pub fanout : ℕ
fanout = 128

abbrev pub block_size : ℕ
block_size = 4096

abbrev pub hash_size : ℕ
hash_size = 32

-- `MerkleTree` and `MerkleTreeMut` without the reference to the blob store, which the methods take.
pub record MerkleTree : Type 0 where
  pub root_hash : Hash
  pub depth : ℕ
  pub total_sectors : ℕ

-- `while capacity < total_sectors { depth += 1; capacity *= FANOUT }`, on fuel, `depth` a `u8` and
-- `capacity` a `u64`.
unfoldable pub depth_loop : ℕ → ℕ → ℕ → ℕ → ℕ
depth_loop zero depth capacity total_sectors = depth
depth_loop (suc fuel) depth capacity total_sectors =
    let rest = depth_loop fuel ((depth + 1) % 2 ^ 8) (capacity * fanout % 2 ^ 64) total_sectors in
    if ltb capacity total_sectors then rest else depth

unfoldable pub calculate_depth : ℕ → ℕ
unfolding depth_loop
calculate_depth total_sectors =
    if total_sectors == 0 then 1 else depth_loop 16 1 fanout total_sectors

unfoldable pub new : Hash → ℕ → MerkleTree
unfolding calculate_depth
new root_hash total_sectors = record {
  root_hash = root_hash;
  depth = calculate_depth total_sectors;
  total_sectors = total_sectors;
}

unfoldable pub extract_index : ℕ → ℕ → ℕ → ℕ
extract_index lba level depth = bit_and (shr lba ((depth - 1 - level) * 7)) 0x7f

unfoldable pub extract_hash : Bytes → ℕ → Hash
extract_hash node index =
    let start = index * hash_size in
    let end = start + hash_size in
    if ltb (length node) end then zero_hash else take hash_size (drop start node)

unfoldable pub set_hash : Bytes → ℕ → Hash → Bytes
set_hash node index hash =
    let start = index * hash_size in
    let end = start + hash_size in
    if leb end (length node) then take start node ++ (hash ++ drop end node) else node

module _ {S : Type 0} (store : BlobStore S) where
  -- The loop of `MerkleTree::lookup` from `level` on, with the levels left as its first argument.
  unfoldable pub lookup_loop : ℕ → ℕ → ℕ → ℕ → Hash → S → Outcome BlobError Hash
  lookup_loop zero level depth lba current_hash s = ok zero_hash
  lookup_loop (suc left) level depth lba current_hash s =
      let walk : Outcome BlobError Hash = do
        node ← store.get current_hash s
        let index = extract_index lba level depth
        let deeper = lookup_loop left (level + 1) depth lba (extract_hash node index) s
        if level == depth - 1 then ok (extract_hash node index) else deeper
      in if is_zero current_hash then ok zero_hash else walk

  unfoldable pub lookup : MerkleTree → ℕ → S → Outcome BlobError Hash
  unfolding lookup_loop extract_index extract_hash
  lookup tree lba s =
      if leb tree.total_sectors lba
      then err (BlobError.backend (lba_out_of_range lba tree.total_sectors))
      else if is_zero tree.root_hash
      then ok zero_hash
      else if tree.depth == 1
      then (do root_block ← store.get tree.root_hash s; ok (extract_hash root_block lba))
      else lookup_loop tree.depth 0 tree.depth lba tree.root_hash s

  -- The first loop of `update`: the nodes from the root to the leaf, with the index taken in each.
  unfoldable pub descend : ℕ → ℕ → ℕ → ℕ → Hash → S → Outcome BlobError (List (Bytes × ℕ))
  descend zero level depth lba current_hash s = ok []
  descend (suc left) level depth lba current_hash s = do
    let index = extract_index lba level depth
    node ← (if is_zero current_hash then ok (replicate block_size 0) else store.get current_hash s)
    let next = if ltb level (depth - 1) then extract_hash node index else current_hash
    path ← descend left (level + 1) depth lba next s
    ok ((node, index) ∷ path)
