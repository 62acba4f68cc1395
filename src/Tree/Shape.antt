-- ===== src/Tree/Shape.antt =====
-- The walk of the Merkle tree by the levels that are left, without the level counters, and trees
-- whose nodes are all there.
use vo_e.Common.{
  ℕ, zero, suc, ◌^◌, ◌/◌, ◌%◌, ◌≤◌, Bool-cases, inl, inr, leb, ◌+◌, ◌-◌, ◌≤◌, ◌<◌, ◌≡◌, ap, ◌∙◌,
  inl, inr, arith, Bytes, true, false, if◌then◌else◌, ltb, leb, ◌==◌, Bool-cases, List, [], ◌∷◌,
  replicate, length, Outcome, ok, ◌>>=◌, >>=_cong,
}
use vo_e.Blob.{Hash, zero_hash, is_zero, BlobStore, BlobError}
use vo_e.Tree.{MerkleTree, block_size, extract_hash, extract_index, lookup_loop, lookup, descend}
use vo_e.Tree.Index.{digit, extract_index-eq-digit}

abbrev cons : Bytes → ℕ → List (Bytes × ℕ) → Outcome BlobError (List (Bytes × ℕ))
cons n i below = ok ((n, i) ∷ below)

module _ {S : Type 0} (store : BlobStore S) where
  -- The node under a hash; a zero hash stands for an empty node.
  unfoldable pub node_at : Hash → S → Outcome BlobError Bytes
  node_at hash s = if is_zero hash then ok (replicate block_size 0) else store.get hash s

  -- The data hash of sector `lba` in the subtree of `r` levels under `hash`.
  unfoldable pub walk : ℕ → Hash → ℕ → S → Outcome BlobError Hash
  walk zero hash lba s = ok hash
  walk (suc r) hash lba s =
      let below : Outcome BlobError Hash = do
        node ← store.get hash s
        walk r (extract_hash node (digit r lba)) lba s
      in if is_zero hash then ok zero_hash else below

  -- The path of `lba` through the last `r` levels, the root first.
  unfoldable pub path_to : ℕ → Hash → ℕ → S → Outcome BlobError (List (Bytes × ℕ))
  unfolding node_at
  path_to zero hash lba s = ok []
  path_to (suc r) hash lba s = do
    node ← node_at hash s
    below ← path_to r (extract_hash node (digit r lba)) lba s
    ok ((node, digit r lba) ∷ below)

  -- Every node of the subtree can be read and has its size.
  pub data IsTree (s : S) : ℕ → Hash → Type 0 where
    leaf : (h : Hash) → IsTree s zero h
    node :
        (r : ℕ) (h : Hash) (n : Bytes)
        → node_at h s ≡ ok n
        → length n ≡ block_size
        → ((i : ℕ) → i < 128 → IsTree s r (extract_hash n i))
        → IsTree s (suc r) h

  lookup_loop-eq-walk :
      (r level depth lba : ℕ) (hash : Hash) (s : S)
      → level + suc r ≡ depth
      → lookup_loop store (suc r) level depth lba hash s ≡ walk (suc r) hash lba s
  unfolding lookup_loop walk
  lookup_loop-eq-walk zero level depth lba hash s e =
      let last : (level == depth - 1) ≡ true = ground arith in
      ap (λ b. if is_zero hash then ok zero_hash else b)
        (>>=_cong (store.get hash s) λ n.
          ap (λ b. if b then ok (extract_hash n (extract_index lba level depth)) else ok zero_hash)
            last
          ∙ ap (λ i. ok (extract_hash n i)) (extract_index-eq-digit lba level depth 0 e))
  lookup_loop-eq-walk (suc r) level depth lba hash s e =
      let inner : (level == depth - 1) ≡ false = ground arith in
      let index = extract_index lba level depth in
      ap (λ b. if is_zero hash then ok zero_hash else b)
        (>>=_cong (store.get hash s) λ n.
          let deeper =
            λ (i : ℕ). lookup_loop store (suc r) (level + 1) depth lba (extract_hash n i) s in
          ap (λ b. if b then ok (extract_hash n index) else deeper index) inner
          ∙ ap deeper (extract_index-eq-digit lba level depth (suc r) e)
          ∙ lookup_loop-eq-walk r (level + 1) depth lba (extract_hash n (digit (suc r) lba)) s
              (omega arith))

  pub descend-eq-path_to :
      (r level depth lba : ℕ) (hash : Hash) (s : S)
      → level + suc r ≡ depth
      → descend store (suc r) level depth lba hash s ≡ path_to (suc r) hash lba s
  unfolding descend path_to
  descend-eq-path_to zero level depth lba hash s e =
      >>=_cong (node_at hash s)
        λ n. ap (λ i. ok ((n, i) ∷ [])) (extract_index-eq-digit lba level depth 0 e)
  descend-eq-path_to (suc r) level depth lba hash s e =
      let inner : ltb level (depth - 1) ≡ true = ground arith in
      let index = extract_index lba level depth in
      >>=_cong (node_at hash s) λ n.
        let after =
          λ (i : ℕ) (h : Hash). descend store (suc r) (level + 1) depth lba h s >>= cons n i in
        ap (λ b. after index (if b then extract_hash n index else hash)) inner
        ∙ ap (λ i. after i (extract_hash n i)) (extract_index-eq-digit lba level depth (suc r) e)
        ∙ ap (λ m. m >>= cons n (digit (suc r) lba))
            (descend-eq-path_to r (level + 1) depth lba (extract_hash n (digit (suc r) lba)) s
              (omega arith))

  lookup_one_level :
      (root : Hash) (lba : ℕ) (s : S)
      → lba < 128
      → (if is_zero root
          then ok zero_hash
          else (do root_block ← store.get root s; ok (extract_hash root_block lba)))
        ≡ walk 1 root lba s
  unfolding walk digit
  lookup_one_level root lba s small =
      ap
        (λ i.
          if is_zero root then ok zero_hash else store.get root s >>= λ n. ok (extract_hash n i))
        (let e : lba ≡ lba / 1 % 128 = omega arith in e)

  lookup_deeper :
      (depth : ℕ) (root : Hash) (lba : ℕ) (s : S)
      → lba < 128 ^ depth
      → 1 ≤ depth
      → (if is_zero root
          then ok zero_hash
          else if depth == 1
          then (do root_block ← store.get root s; ok (extract_hash root_block lba))
          else lookup_loop store depth 0 depth lba root s)
        ≡ walk depth root lba s
  lookup_deeper zero root lba s room deep = absurd (omega arith)
  lookup_deeper (suc zero) root lba s room deep = lookup_one_level root lba s (omega arith)
  lookup_deeper (suc (suc r)) root lba s room deep =
      let tall : (suc (suc r) == 1) ≡ false = ground arith in
      let loop = lookup_loop-eq-walk (suc r) 0 (suc (suc r)) lba root s (omega arith) in
      rw tall (elim (Bool-cases (is_zero root)) [
        | inl z ↦ rw z (unfold walk in rw z)
        | inr n ↦ rw n loop
      ])

  -- Within the tree's room `lookup` is the walk from the root.
  pub lookup-eq-walk :
      (tree : MerkleTree) (lba : ℕ) (s : S)
      → lba < tree.total_sectors
      → tree.total_sectors ≤ 128 ^ tree.depth
      → 1 ≤ tree.depth
      → lookup store tree lba s ≡ walk tree.depth tree.root_hash lba s
  unfolding lookup
  lookup-eq-walk tree lba s in_range room deep =
      let within : leb tree.total_sectors lba ≡ false = ground arith in
      rw within (lookup_deeper tree.depth tree.root_hash lba s (omega arith) deep)
