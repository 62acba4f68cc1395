-- ===== src/Tree/Keeps.antt =====
-- Whole trees under later states of the store: they stay whole, and the walk finds the same.
use vo_e.Common.{
  ℕ, zero, suc, ◌≡◌, refl, sym, ap, ◌∙◌, inl, inr, Bytes, Bool-cases, List, [], ◌∷◌, Outcome, ok,
}
use vo_e.Blob.{Hash, zero_hash, is_zero, BlobStore, BlobError}
use vo_e.Tree.{block_size, extract_hash}
use vo_e.Tree.Node.{extract_hash-replicate}
use vo_e.Tree.Index.{digit, digit-lt}
use vo_e.Tree.Shape.{node_at, walk, path_to, IsTree}

-- A later state of the store has all that an earlier one has.
abbrev pub Keeps : {S : Type 0} (store : BlobStore S) → S → S → Type 0
Keeps store s t = (k : Hash) (x : Bytes) → store.get k s ≡ ok x → store.get k t ≡ ok x

module _ {S : Type 0} (store : BlobStore S) where
  node_at-Keeps :
      {s t : S} (h : Hash) (n : Bytes)
      → Keeps store s t
      → node_at store h s ≡ ok n
      → node_at store h t ≡ ok n
  unfolding node_at
  node_at-Keeps h n keep e = elim (Bool-cases (is_zero h)) [
    | inl z ↦ rw z (rw z at e)
    | inr p ↦ rw p (keep h n (rw p at e))
  ]

  -- Later states have the same trees.
  pub IsTree-Keeps :
      {s t : S} {r : ℕ} {h : Hash} → Keeps store s t → IsTree store s r h → IsTree store t r h
  IsTree-Keeps keep (IsTree.leaf h) = IsTree.leaf h
  IsTree-Keeps keep (IsTree.node r h n e size below) =
      IsTree.node r h n (node_at-Keeps h n keep e) size (λ i fits. IsTree-Keeps keep (below i fits))

  pub walk-zero_hash : (r j : ℕ) (s : S) → walk store r zero_hash j s ≡ ok zero_hash
  unfolding walk
  walk-zero_hash zero j s = refl
  walk-zero_hash (suc r) j s = refl

  -- The walk goes through the node under the hash, stored or empty.
  pub walk-node_at :
      (r j : ℕ) (h : Hash) (n : Bytes) (s : S)
      → node_at store h s ≡ ok n
      → walk store (suc r) h j s ≡ walk store r (extract_hash n (digit r j)) j s
  unfolding walk node_at
  walk-node_at r j h n s e = elim (Bool-cases (is_zero h)) [
    | inl z ↦ rw z (
        sym (
          ap (λ m. walk store r (extract_hash m (digit r j)) j s) (empty (rw z at e))
          ∙ ap (λ d. walk store r d j s) (extract_hash-replicate block_size (digit r j))
          ∙ walk-zero_hash r j s))
    | inr p ↦ let e' : store.get h s ≡ ok n = rw p at e in rw (p, e')
  ]
    where
      empty : {a b : Bytes} → ◌≡◌ {A = Outcome BlobError Bytes} (ok a) (ok b) → b ≡ a
      empty p = cc

  -- In a whole tree the walk finds the same at a later state.
  pub walk-Keeps :
      {s t : S} {r : ℕ} {h : Hash} (j : ℕ)
      → Keeps store s t
      → IsTree store s r h
      → walk store r h j t ≡ walk store r h j s
  walk-Keeps j keep (IsTree.leaf h) = unfold walk in refl
  walk-Keeps {s} {t} j keep (IsTree.node r h n e size below) =
      walk-node_at r j h n t (node_at-Keeps h n keep e)
      ∙ walk-Keeps j keep (below (digit r j) (digit-lt r j))
      ∙ sym (walk-node_at r j h n s e)

module _ {S : Type 0} (store : BlobStore S) (lba : ℕ) where
  -- The path of `lba` in a whole tree.
  unfoldable pub way : {s : S} {r : ℕ} {h : Hash} → IsTree store s r h → List (Bytes × ℕ)
  way (IsTree.leaf h) = []
  way (IsTree.node r h n e size below) =
      (n, digit r lba) ∷ way (below (digit r lba) (digit-lt r lba))

  pub path_to-way :
      {s : S} {r : ℕ} {h : Hash} (tree : IsTree store s r h)
      → path_to store r h lba s ≡ ok (way tree)
  unfolding path_to way
  path_to-way (IsTree.leaf h) = refl
  path_to-way (IsTree.node r h n e size below) =
      rw (e, path_to-way (below (digit r lba) (digit-lt r lba)))
