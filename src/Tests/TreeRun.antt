-- ===== src/Tests/TreeRun.antt =====
-- The Merkle tree over `FileBlobStore` in memory, with a stand-in for BLAKE3.
use vo_e.Common.{
  ℕ, ◌≡◌, refl, sym, ap, ◌∙◌, arith, Bytes, ◌⊎◌, inl, inr, ◌∷◌, ◌++◌, take, drop, replicate, get_or,
  All, ok, length-append, length-take,
}
use vo_e.Blob.{Hash, zero_hash, BlobStore, BlobLaws, HashLaws}
use vo_e.Blob.File.{file_blob_store}
use vo_e.Blob.File.Laws.{file_blob_store_laws, empty-IsIntact}
use vo_e.Blob.File.Memory.{Files, memory, memory_laws, no_files, content-no_files}
use vo_e.Tree.{MerkleTree, lookup, calculate_depth, set_hash, descend, extract_index, extract_hash}
use vo_e.Tree.Depth.{FitsDepth, calculate_depth-FitsDepth}
use vo_e.Tree.Update.{update, new_nodes, top_hash}
use vo_e.Tree.Correct.{IsWhole, IsTree-zero_hash, update_nodes, update-lookup, update-keeps_trees}

-- 32 numbers, of which the first is not 0.
abbrev toy_hash : Bytes → Hash
toy_hash x = 1 ∷ take 31 (drop 32 x ++ replicate 31 0)

abbrev data_hash : Hash
data_hash = replicate 32 7

abbrev store : BlobStore Files
store = file_blob_store toy_hash (λ x. x) memory

abbrev tree : MerkleTree
tree = record { root_hash = zero_hash; depth = 2; total_sectors = 300 }

abbrev leaf_node : Bytes
leaf_node = set_hash (replicate 4096 0) 72 data_hash

abbrev root_node : Bytes
root_node = set_hash (replicate 4096 0) 1 (toy_hash leaf_node)

abbrev Known : Bytes → Type 0
Known x = (x ≡ leaf_node) ⊎ (x ≡ root_node)

leaf-ne-root : toy_hash leaf_node ≡ toy_hash root_node → ⊥
unfolding set_hash
leaf-ne-root e = let h : ◌≡◌ {A = ℕ} 0 1 = ap (λ l. get_or l 1 9) e in absurd (omega (arith, h))

no_collision : (a b : Bytes) → Known a → Known b → toy_hash a ≡ toy_hash b → a ≡ b
no_collision a b (inl p) (inl q) e = p ∙ sym q
no_collision a b (inl p) (inr q) e = absurd (leaf-ne-root (sym (ap toy_hash p) ∙ e ∙ ap toy_hash q))
no_collision a b (inr p) (inl q) e =
    absurd (leaf-ne-root (sym (ap toy_hash q) ∙ sym e ∙ ap toy_hash p))
no_collision a b (inr p) (inr q) e = p ∙ sym q

toy_laws : HashLaws toy_hash Known
toy_laws = record {
  length-from_data = λ d. omega (
    arith,
    length-take 31 (drop 32 d ++ replicate 31 0),
    length-append (drop 32 d) (replicate {A = ℕ} 31 0),
  );
  from_data-ne-zero = λ d k. refl;
}

abbrev laws : BlobLaws toy_hash store Known
laws = file_blob_store_laws toy_hash (λ x. x) memory memory_laws (λ a b e. e) Known no_collision

tree-IsWhole : IsWhole store tree no_files
tree-IsWhole = record {
  room = omega arith;
  deep = omega arith;
  nodes = IsTree-zero_hash store 2 no_files;
}

no_files-IsIntact : laws.IsIntact no_files
no_files-IsIntact =
    empty-IsIntact toy_hash (λ x. x) memory memory_laws (λ a b e. e) Known no_collision no_files
      content-no_files

nodes-Known : All Known (update_nodes store toy_hash tree 200 data_hash no_files)
unfolding update_nodes descend new_nodes top_hash extract_index extract_hash
nodes-Known = (inr refl, (inl refl, tt))

abbrev tree' : MerkleTree
tree' = record { root_hash = toy_hash root_node; depth = 2; total_sectors = 300 }

run : (update toy_hash store tree 200 data_hash no_files).0 ≡ ok tree'
unfolding update file_blob_store
run = refl

update-lookup_example :
    lookup store tree' 200 (update toy_hash store tree 200 data_hash no_files).1 ≡ ok data_hash
update-lookup_example =
    (update-lookup toy_hash store Known toy_laws laws tree 200 data_hash no_files refl tree-IsWhole
        no_files-IsIntact nodes-Known (omega arith) run).1
      200 (omega arith)

update-keeps_trees_example :
    lookup store tree 200 (update toy_hash store tree 200 data_hash no_files).1
    ≡ lookup store tree 200 no_files
update-keeps_trees_example =
    (update-keeps_trees toy_hash store Known toy_laws laws tree 200 data_hash no_files refl
        tree-IsWhole no_files-IsIntact nodes-Known (omega arith) tree tree-IsWhole).2
      200 (omega arith)

calculate_depth-FitsDepth_example : FitsDepth 16385 (calculate_depth 16385)
calculate_depth-FitsDepth_example = calculate_depth-FitsDepth 16385 (λ e. cc) (omega arith)

three_levels : calculate_depth 16385 ≡ 3
unfolding calculate_depth
three_levels = refl
