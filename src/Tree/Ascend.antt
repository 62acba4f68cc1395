-- ===== src/Tree/Ascend.antt =====
-- The second loop of `update`: what it stores, and what the walk finds under the hash it returns.
use vo_e.Common.{
  ℕ, zero, suc, ◌<◌, ◌≡◌, refl, sym, ap, ◌∙◌, subst, ◌&&◌, arith, Bytes, if◌then◌else◌, ◌==◌, List,
  [], ◌∷◌, length, ok_inj, All, Outcome, ok, err,
}
use vo_e.Common.Io.{
  Io, pure, bind_ok, and_then, and_then-pure_state, and_then-pure_ok, ◌>>=◌, ◌>>◌, >>=-eq-ok,
}
use native.Mathlib.Decide.{ℕ_discrete}
use vo_e.Blob.{Hash, BlobStore, BlobError, BlobLaws, HashLaws}
use vo_e.Tree.{block_size, extract_hash, set_hash}
use vo_e.Tree.Node.{extract_hash-set_hash_self, extract_hash-set_hash_ne, length-set_hash}
use vo_e.Tree.Index.{digit, digit-lt, same_path}
use vo_e.Tree.Shape.{node_at, walk, IsTree}
use vo_e.Tree.Update.{ascend, top_hash, new_nodes}
use vo_e.Tree.Keeps.{Keeps, IsTree-Keeps, walk-Keeps, walk-node_at, way}

module _ {S : Type 0} (from_data : Bytes → Hash) (store : BlobStore S) (Known : Bytes → Type 0)
    (hash_laws : HashLaws from_data Known) (laws : BlobLaws from_data store Known) where
  open hash_laws use {length-from_data, from_data-ne-zero}
  open laws use {IsIntact, put-IsIntact, get-put, get-put_keeps}

  abbrev pub climb : List (Bytes × ℕ) → Hash → Io S BlobError Hash
  climb path d = ascend from_data store path d

  -- One round of the second loop, on the hash of the child.
  abbrev pub store_node : Bytes → ℕ → Hash → Io S BlobError Hash
  store_node n i child = do
    store.put (from_data (set_hash n i child)) (set_hash n i child)
    pure (from_data (set_hash n i child))

  abbrev pub put_node : Bytes → ℕ → Hash → Io S BlobError (Unit {0})
  put_node n i child = store.put (from_data (set_hash n i child)) (set_hash n i child)

  store_node_state :
      (n : Bytes) (i : ℕ) (c : Hash) (s : S) → (store_node n i c s).1 ≡ (put_node n i c s).1
  store_node_state n i c s = and_then-pure_state (put_node n i c s).0 _ _

  store_node_ok :
      (n : Bytes) (i : ℕ) (c : Hash) (s : S) {t : Hash}
      → (store_node n i c s).0 ≡ ok t
      → ((put_node n i c s).0 ≡ ok tt) × (t ≡ from_data (set_hash n i c))
  store_node_ok n i c s e = and_then-pure_ok (put_node n i c s).0 _ _ e

  pub ascend-top_hash :
      (path : List (Bytes × ℕ)) (d c : Hash) (s : S)
      → (climb path d s).0 ≡ ok c
      → c ≡ top_hash from_data path d
  unfolding ascend top_hash
  ascend-top_hash [] d c s e = cc
  ascend-top_hash ((n, i) ∷ below) d c s e =
      let (child, returned, stored) = >>=-eq-ok (climb below d) (store_node n i) s e in
      (store_node_ok n i child (climb below d s).1 stored).1
      ∙ ap (λ x. from_data (set_hash n i x)) (ascend-top_hash below d child s returned)

  pub length-top_hash :
      (path : List (Bytes × ℕ)) (d : Hash) → length d ≡ 32 → length (top_hash from_data path d) ≡ 32
  unfolding top_hash
  length-top_hash [] d h = h
  length-top_hash ((n, i) ∷ below) d h = length-from_data _

  module _ (n : Bytes) (i : ℕ) (want : Hash) (known : Known (set_hash n i want)) where
    put_node-IsIntact : (s : S) → IsIntact s → IsIntact (store_node n i want s).1
    put_node-IsIntact s h = rw (store_node_state n i want s) (put-IsIntact s _ known h)

    put_node-Keeps : (s : S) → IsIntact s → Keeps store s (store_node n i want s).1
    put_node-Keeps s h k x e = rw (store_node_state n i want s) (get-put_keeps s _ k x known h e)

    put_node-node_at :
        (s : S) (c : Hash)
        → IsIntact s
        → (store_node n i want s).0 ≡ ok c
        → node_at store c (store_node n i want s).1 ≡ ok (set_hash n i want)
    unfolding node_at
    put_node-node_at s c h e =
        let (put_ok, same) = store_node_ok n i want s e in
        rw (same, from_data-ne-zero _ known, store_node_state n i want s)
          (get-put s _ known h put_ok)

    -- The same after a child that may have failed.
    after_child-IsIntact :
        (r : Outcome BlobError Hash) (s : S)
        → ((c : Hash) → r ≡ ok c → c ≡ want)
        → IsIntact s
        → IsIntact (and_then r (store_node n i) s).1
          × Keeps store s (and_then r (store_node n i) s).1
    after_child-IsIntact (ok c) s h i' = rw (h c refl) (put_node-IsIntact s i', put_node-Keeps s i')
    after_child-IsIntact (err e) s h i' = (i', λ k x p. p)

  -- Whether it ends well or not, the second loop leaves the store intact and loses nothing.
  pub ascend-IsIntact :
      (path : List (Bytes × ℕ)) (d : Hash) (s : S)
      → All Known (new_nodes from_data path d)
      → IsIntact s
      → IsIntact (climb path d s).1 × Keeps store s (climb path d s).1
  unfolding ascend new_nodes
  ascend-IsIntact [] d s known h = (h, λ k x p. p)
  ascend-IsIntact ((n, i) ∷ below) d s (known, knowns) h =
      let (h', keep) = ascend-IsIntact below d s knowns h in
      let (h'', keep') =
        after_child-IsIntact n i (top_hash from_data below d) known (climb below d s).0
          (climb below d s).1 (λ c e. ascend-top_hash below d c s e) h' in
      (h'', λ k x p. keep' k x (keep k x p))

  -- A subtree that agrees with an earlier one, but for the sectors on the way of `lba`.
  pub record IsUpdated (r lba : ℕ) (d h c : Hash) (s t : S) : Type 0 where
    pub whole : IsTree store t r c
    pub agrees :
        (j : ℕ) → walk store r c j t ≡ (if same_path r j lba then ok d else walk store r h j s)

  -- One node over an updated subtree.
  module _ (r lba : ℕ) (d h : Hash) (n : Bytes) (s t u : S) (child : Hash)
      (read : node_at store h s ≡ ok n) (size : length n ≡ block_size) (wide : length child ≡ 32)
      (subtrees : (i : ℕ) → i < 128 → IsTree store s r (extract_hash n i))
      (below : IsUpdated r lba d (extract_hash n (digit r lba)) child s t) (kept : Keeps store s t)
      (kept' : Keeps store t u) where
    subtrees' :
        (j : ℕ) → j < 128 → IsTree store u r (extract_hash (set_hash n (digit r lba) child) j)
    subtrees' j small = elim (ℕ_discrete (digit r lba) j) [
      | yes same ↦
          subst (λ x. IsTree store u r x)
            (sym (
              ap (λ k. extract_hash (set_hash n (digit r lba) child) k) (sym same)
              ∙ extract_hash-set_hash_self n (digit r lba) child size (digit-lt r lba) wide))
            (IsTree-Keeps store kept' below.whole)
      | no differ ↦
          subst (λ x. IsTree store u r x)
            (sym (
              extract_hash-set_hash_ne n (digit r lba) child size (digit-lt r lba) wide j small
                differ))
            (IsTree-Keeps store (λ k x e. kept' k x (kept k x e)) (subtrees j small))
    ]

    walk_below :
        (j : ℕ)
        → walk store r (extract_hash (set_hash n (digit r lba) child) (digit r j)) j u ≡ (
            if digit r j == digit r lba && same_path r j lba
            then ok d
            else walk store (suc r) h j s)
    walk_below j = elim (ℕ_discrete (digit r lba) (digit r j)) [
      | yes same ↦ ground (
        arith,
        same,
        extract_hash-set_hash_self n (digit r lba) child size (digit-lt r lba) wide,
        walk-Keeps store j kept' below.whole,
        below.agrees j,
        walk-node_at store r j h n s read,
      )
      | no differ ↦ ground (
        arith,
        differ,
        extract_hash-set_hash_ne n (digit r lba) child size (digit-lt r lba) wide (digit r j)
            (digit-lt r j) differ,
        walk-Keeps store j (λ k x e. kept' k x (kept k x e)) (subtrees (digit r j) (digit-lt r j)),
        walk-node_at store r j h n s read,
      )
    ]

    node-IsUpdated :
        (c : Hash)
        → node_at store c u ≡ ok (set_hash n (digit r lba) child)
        → IsUpdated (suc r) lba d h c s u
    unfolding same_path
    node-IsUpdated c written = record {
      whole =
          IsTree.node r c (set_hash n (digit r lba) child) written
            (length-set_hash n (digit r lba) child size (digit-lt r lba) wide) subtrees';
      agrees = λ j. walk-node_at store r j c _ u written ∙ walk_below j;
    }

  -- What the second loop makes of a whole subtree.
  pub ascend-IsUpdated :
      (lba : ℕ) (s : S) {r : ℕ} {h : Hash} (d c : Hash) (tree : IsTree store s r h)
      → length d ≡ 32
      → All Known (new_nodes from_data (way store lba tree) d)
      → IsIntact s
      → (climb (way store lba tree) d s).0 ≡ ok c
      → IsUpdated r lba d h c s (climb (way store lba tree) d s).1
  unfolding way new_nodes ascend
  ascend-IsUpdated lba s d c (IsTree.leaf h) wide known intact done = record {
    whole = subst (λ x. IsTree store s zero x) (ok_inj done) (IsTree.leaf d);
    agrees = λ j. unfold walk same_path in sym done;
  }
  ascend-IsUpdated lba s d c (IsTree.node r h n e size below) wide (known, knowns) intact done =
      let sub = below (digit r lba) (digit-lt r lba) in
      let rest = way store lba sub in
      let want = top_hash from_data rest d in
      let i = digit r lba in
      let (child, returned, stored) = >>=-eq-ok (climb rest d) (store_node n i) s done in
      let t = (climb rest d s).1 in
      let child_want : child ≡ want = ascend-top_hash rest d child s returned in
      let (intact', kept) = ascend-IsIntact rest d s knowns intact in
      let same : (climb rest d >>= store_node n i) s ≡ store_node n i want t =
        bind_ok (climb rest d) (store_node n i) s returned
        ∙ ap (λ x. store_node n i x t) child_want in
      let u = (store_node n i want t).1 in
      let updated =
        subst (λ x. IsUpdated r lba d (extract_hash n i) x s t) child_want
          (ascend-IsUpdated lba s d child (below (digit r lba) (digit-lt r lba)) wide knowns intact
            returned) in
      subst (λ x. IsUpdated (suc r) lba d h c s x)
        (ap (λ (p : Outcome BlobError Hash × S). p.1) (sym same))
        (node-IsUpdated r lba d h n s t u want e size (length-top_hash rest d wide) below updated
          kept (put_node-Keeps n i want known t intact') c
          (put_node-node_at n i want known t c intact'
            (ap (λ (p : Outcome BlobError Hash × S). p.0) (sym same) ∙ done)))
