-- ===== src/Tree/Correct.antt =====
-- `update` and `lookup` of the Merkle tree against the map from sectors to hashes.
use vo_e.Common.{
  ℕ, zero, suc, ◌≤◌, ◌<◌, ◌^◌, ◌≡◌, refl, sym, ap, ◌∙◌, subst, arith, Bytes, false, if◌then◌else◌,
  leb, ◌==◌, List, [], ◌∷◌, length, All, Outcome, ok, err, ok_inj, length-replicate,
}
use vo_e.Common.Io.{pure, and_then, and_then-map_state, ◌>>=◌, >>=-eq-ok}
use vo_e.Blob.{Hash, zero_hash, BlobStore, BlobError, BlobLaws, HashLaws}
use vo_e.Tree.{MerkleTree, block_size, lookup, descend}
use vo_e.Tree.Node.{extract_hash-replicate, set_hash-set_hash}
use vo_e.Tree.Index.{digit, digit-lt, same_path-eq-==}
use vo_e.Tree.Shape.{node_at, walk, IsTree, lookup-eq-walk, descend-eq-path_to}
use vo_e.Tree.Update.{set_leaf, ascend, update, new_nodes}
use vo_e.Tree.Keeps.{Keeps, IsTree-Keeps, walk-Keeps, way, path_to-way}
use vo_e.Tree.Ascend.{
  ascend-top_hash, length-top_hash, ascend-IsIntact, ascend-IsUpdated, IsUpdated,
}

abbrev pub nodes_of : (Bytes → Hash) → Hash → Outcome BlobError (List (Bytes × ℕ)) → List Bytes
nodes_of from_data d (ok path) = new_nodes from_data path d
nodes_of from_data d (err e) = []

module _ {S : Type 0} (store : BlobStore S) where
  -- A tree with room for its sectors, all of whose nodes can be read.
  pub record IsWhole (tree : MerkleTree) (s : S) : Type 0 where
    pub room : tree.total_sectors ≤ 128 ^ tree.depth
    pub deep : 1 ≤ tree.depth
    pub nodes : IsTree store s tree.depth tree.root_hash

  -- The empty tree is whole in every store.
  pub IsTree-zero_hash : (r : ℕ) (s : S) → IsTree store s r zero_hash
  unfolding node_at
  IsTree-zero_hash zero s = IsTree.leaf zero_hash
  IsTree-zero_hash (suc r) s =
      IsTree.node r zero_hash _ refl (length-replicate {A = ℕ} block_size 0) λ i fits.
        subst (λ x. IsTree store s r x) (sym (extract_hash-replicate block_size i))
          (IsTree-zero_hash r s)

  -- A later state of the store has the tree and its lookups.
  pub IsWhole-Keeps :
      {tree : MerkleTree} {s t : S} → Keeps store s t → IsWhole tree s → IsWhole tree t
  IsWhole-Keeps kept o = record {
    room = o.room;
    deep = o.deep;
    nodes = IsTree-Keeps store kept o.nodes;
  }

  pub lookup-Keeps :
      (tree : MerkleTree) {s t : S}
      → Keeps store s t
      → IsWhole tree s
      → (j : ℕ) → j < tree.total_sectors
      → lookup store tree j t ≡ lookup store tree j s
  lookup-Keeps tree {s} {t} kept o j small =
      lookup-eq-walk store tree j t small o.room o.deep
      ∙ walk-Keeps store j kept o.nodes
      ∙ sym (lookup-eq-walk store tree j s small o.room o.deep)

  -- The blobs that an update stores.
  unfoldable pub update_nodes : (Bytes → Hash) → MerkleTree → ℕ → Hash → S → List Bytes
  update_nodes from_data tree lba d s =
      nodes_of from_data d (descend store tree.depth 0 tree.depth lba tree.root_hash s)

  -- The first loop of `update` finds the way of the sector.
  pub descend-way :
      (tree : MerkleTree) (lba : ℕ) (s : S) (w : IsWhole tree s)
      → descend store tree.depth 0 tree.depth lba tree.root_hash s ≡ ok (way store lba w.nodes)
  descend-way tree lba s w = go tree.depth tree.root_hash w.deep w.nodes
    where
      go :
          (r : ℕ) (h : Hash)
          → 1 ≤ r
          → (t : IsTree store s r h) → descend store r 0 r lba h s ≡ ok (way store lba t)
      go zero h deep t = absurd (omega arith)
      go (suc r) h deep t =
          descend-eq-path_to store r 0 (suc r) lba h s (omega arith) ∙ path_to-way store lba t

-- The nodes of a path have their size, and its indices are in range.
abbrev IsSized : List (Bytes × ℕ) → Type 0
IsSized = All (λ p. (length p.0 ≡ block_size) × (p.1 < 128))

way-IsSized :
    {S : Type 0} (store : BlobStore S) (lba : ℕ) {s : S} {r : ℕ} {h : Hash}
    (tree : IsTree store s r h)
    → IsSized (way store lba tree)
unfolding way
way-IsSized store lba (IsTree.leaf h) = tt
way-IsSized store lba (IsTree.node r h n e size below) =
    ((size, digit-lt r lba), way-IsSized store lba (below (digit r lba) (digit-lt r lba)))

module _ {S : Type 0} (from_data : Bytes → Hash) (store : BlobStore S) (d : Hash)
    (wide : length d ≡ 32) where
  -- That `update` writes the data hash into the leaf before the second loop makes no difference.
  ascend-set_leaf :
      (path : List (Bytes × ℕ)) (s : S)
      → IsSized path
      → ascend from_data store (set_leaf path d) d s ≡ ascend from_data store path d s
  unfolding ascend set_leaf
  ascend-set_leaf [] s sized = refl
  ascend-set_leaf ((n, i) ∷ []) s ((size, fits), _) = rw (set_hash-set_hash n i d size fits wide)
  ascend-set_leaf ((n, i) ∷ below ∷ path) s (_, sized) = rw (ascend-set_leaf (below ∷ path) s sized)

module _ {S : Type 0} (from_data : Bytes → Hash) (store : BlobStore S) (Known : Bytes → Type 0)
    (hash_laws : HashLaws from_data Known) (laws : BlobLaws from_data store Known)
    (tree : MerkleTree) (lba : ℕ) (d : Hash) (s : S) (wide : length d ≡ 32)
    (w : IsWhole store tree s) (intact : laws.IsIntact s)
    (known : All Known (update_nodes store from_data tree lba d s))
    (in_range : lba < tree.total_sectors) where
  path : List (Bytes × ℕ)
  path = way store lba w.nodes

  path-Known : All Known (new_nodes from_data path d)
  unfolding update_nodes path
  path-Known =
      subst (λ o. All Known (nodes_of from_data d o)) (descend-way store tree lba s w) known

  -- `update` is its two loops.
  update-eq-ascend :
      update from_data store tree lba d s
      ≡ (ascend from_data store path d >>= λ c. pure (record tree { root_hash = c })) s
  unfolding update path
  update-eq-ascend =
      let within : leb tree.total_sectors lba ≡ false = ground arith in
      rw (within, descend-way store tree lba s w)
        (ap
          (λ (r : Outcome BlobError Hash × S).
            and_then r.0 (λ c. pure (record tree { root_hash = c })) r.1)
          (ascend-set_leaf from_data store d wide (way store lba w.nodes) s
            (way-IsSized store lba w.nodes)))

  abbrev pub after : S
  after = (update from_data store tree lba d s).1

  after-eq : after ≡ (ascend from_data store path d s).1
  after-eq =
      ap (λ (r : Outcome BlobError MerkleTree × S). r.1) update-eq-ascend
      ∙ and_then-map_state (ascend from_data store path d s).0 (λ c. record tree { root_hash = c })
          _

  -- An update keeps the store intact and loses no blob, also when it fails.
  pub update_safe : laws.IsIntact after × Keeps store s after
  update_safe =
      let safe = ascend-IsIntact from_data store Known hash_laws laws path d s path-Known intact in
      subst (λ t. laws.IsIntact t × Keeps store s t) (sym after-eq) safe

  -- Under the same conditions on the tree, the store and the hashes, an update, also one that fails,
  -- leaves the store intact, and every tree that was whole stays whole with all its lookups as they
  -- were: a root hash that was kept is a snapshot.
  pub update-keeps_trees :
      (old : MerkleTree)
      → IsWhole store old s
      → laws.IsIntact after
        × IsWhole store old after
        × ((j : ℕ) → j < old.total_sectors → lookup store old j after ≡ lookup store old j s)
  update-keeps_trees old o =
      let (intact', kept) = update_safe in
      (intact', IsWhole-Keeps store kept o, lookup-Keeps store old kept o)

  updated_tree :
      (c : Hash) (t : S)
      → IsUpdated from_data store Known hash_laws laws tree.depth lba d tree.root_hash c s t
      → let tree' : MerkleTree = record tree { root_hash = c } in
        IsWhole store tree' t
        × ((j : ℕ)
            → j < tree.total_sectors
            → lookup store tree' j t ≡ (if j == lba then ok d else lookup store tree j s))
  updated_tree c t u = (
    record { room = w.room; deep = w.deep; nodes = u.whole },
    λ j small.
        lookup-eq-walk store (record tree { root_hash = c }) j t small w.room w.deep
        ∙ u.agrees j
        ∙ ap (λ b. if b then ok d else walk store tree.depth tree.root_hash j s)
            (same_path-eq-== tree.depth j lba (omega (arith, w.room)) (omega (arith, w.room)))
        ∙ ap (λ x. if j == lba then ok d else x)
            (sym (lookup-eq-walk store tree j s small w.room w.deep)),
  )

  -- On a whole tree over an intact store that keeps its laws, with hashes of 32 bytes that are not
  -- zero and do not collide among the blobs at hand: after an update of a sector within the tree
  -- that returned, the new tree is whole, a lookup of that sector gives the new hash, and a lookup
  -- of any other sector gives what it gave before.
  pub update-lookup :
      {tree' : MerkleTree}
      → (update from_data store tree lba d s).0 ≡ ok tree'
      → IsWhole store tree' after
        × ((j : ℕ)
            → j < tree.total_sectors
            → lookup store tree' j after ≡ (if j == lba then ok d else lookup store tree j s))
  unfolding path
  update-lookup {tree'} e =
      let done = ap (λ (r : Outcome BlobError MerkleTree × S). r.0) (sym update-eq-ascend) ∙ e in
      let (c, climbed, same) =
        >>=-eq-ok (ascend from_data store path d) (λ c. pure (record tree { root_hash = c })) s
          done in
      let updated =
        ascend-IsUpdated from_data store Known hash_laws laws lba s d c w.nodes wide path-Known
          intact climbed in
      let Claim = λ (x : MerkleTree) (t : S).
        IsWhole store x t
        × ((j : ℕ)
            → j < tree.total_sectors
            → lookup store x j t ≡ (if j == lba then ok d else lookup store tree j s)) in
      subst (λ x. Claim x after) (ok_inj same)
        (subst (λ t. Claim (record tree { root_hash = c }) t) (sym after-eq)
          (updated_tree c _ updated))

  -- An update changes the root alone, which stays a hash of 32 bytes.
  pub update-size :
      {tree' : MerkleTree}
      → (update from_data store tree lba d s).0 ≡ ok tree'
      → (tree'.total_sectors ≡ tree.total_sectors)
        × (tree'.depth ≡ tree.depth)
        × (length tree'.root_hash ≡ 32)
  unfolding path
  update-size {tree'} e =
      let done = ap (λ (r : Outcome BlobError MerkleTree × S). r.0) (sym update-eq-ascend) ∙ e in
      let (c, climbed, same) =
        >>=-eq-ok (ascend from_data store path d) (λ c. pure (record tree { root_hash = c })) s
          done in
      (
        ap (λ (t : MerkleTree). t.total_sectors) (sym (ok_inj same)),
        ap (λ (t : MerkleTree). t.depth) (sym (ok_inj same)),
        ap (λ (t : MerkleTree). length t.root_hash) (sym (ok_inj same))
            ∙ ap length (ascend-top_hash from_data store Known hash_laws laws path d c s climbed)
            ∙ length-top_hash from_data store Known hash_laws laws path d wide,
      )
