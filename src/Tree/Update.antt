-- ===== src/Tree/Update.antt =====
-- `MerkleTreeMut::update` of src/storage/cas/tree.rs.
use vo_e.Common.{ℕ, Bytes, List, [], ◌∷◌, if◌then◌else◌, leb}
use vo_e.Common.Io.{Io, pure, fail, ◌>>=◌, ◌>>◌}
use vo_e.Blob.{Hash, BlobStore, BlobError, lba_out_of_range}
use vo_e.Tree.{MerkleTree, set_hash, extract_hash, extract_index, descend}

-- `path.last_mut()` with the data hash written into it
unfoldable pub set_leaf : List (Bytes × ℕ) → Hash → List (Bytes × ℕ)
set_leaf [] data_hash = []
set_leaf ((leaf, index) ∷ []) data_hash = (set_hash leaf index data_hash, index) ∷ []
set_leaf (above ∷ below ∷ path) data_hash = above ∷ set_leaf (below ∷ path) data_hash

module _ {S : Type 0} (from_data : Bytes → Hash) (store : BlobStore S) where
  -- The second loop of `update`, over the path in reverse: the last node first. It returns the hash
  -- of the node at the head of the path.
  unfoldable pub ascend : List (Bytes × ℕ) → Hash → Io S BlobError Hash
  ascend [] data_hash = pure data_hash
  ascend ((node, index) ∷ below) data_hash = do
    child_hash ← ascend below data_hash
    let node' = set_hash node index child_hash
    store.put (from_data node') node'
    pure (from_data node')

  unfoldable pub update : MerkleTree → ℕ → Hash → Io S BlobError MerkleTree
  unfolding descend extract_index extract_hash set_leaf ascend set_hash
  update tree lba data_hash =
      if leb tree.total_sectors lba
      then fail (BlobError.backend (lba_out_of_range lba tree.total_sectors))
      else do
        path ← (λ s. (descend store tree.depth 0 tree.depth lba tree.root_hash s, s))
        root_hash ← ascend (set_leaf path data_hash) data_hash
        pure (record tree { root_hash = root_hash })

-- The blobs that `ascend` stores, and the hash that it returns.
module _ (from_data : Bytes → Hash) where
  unfoldable pub top_hash : List (Bytes × ℕ) → Hash → Hash
  top_hash [] data_hash = data_hash
  top_hash ((node, index) ∷ below) data_hash =
      from_data (set_hash node index (top_hash below data_hash))

  unfoldable pub new_nodes : List (Bytes × ℕ) → Hash → List Bytes
  new_nodes [] data_hash = []
  new_nodes ((node, index) ∷ below) data_hash =
      set_hash node index (top_hash below data_hash) ∷ new_nodes below data_hash
