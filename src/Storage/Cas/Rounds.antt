-- ===== src/Storage/Cas/Rounds.antt =====
-- All rounds of the loop of `write`, and the chunks that they write.
use vo_e.Common.{
  ℕ, suc, ◌+◌, ◌%◌, ◌^◌, ◌≤◌, ◌<◌, ◌≡◌, refl, sym, ap, ◌∙◌, subst, arith, Bytes, Bool, ◌⊎◌, inl,
  inr, ◌==◌, ==_iff, true, false, length, All, List, [], ◌∷◌, ◌++◌, Outcome, ok, err, ok_inj,
  Outcome-cases, concat, row, if◌then◌else◌,
}
use vo_e.Common.Io.{◌>>=◌}
use vo_e.Blob.{Hash, BlobStore, BlobError, BlobLaws, HashLaws}
use vo_e.Tree.{MerkleTree}
use vo_e.Tree.Keeps.{Keeps}
use vo_e.Storage.{StorageError}
use vo_e.Storage.Cas.{Codec}
use vo_e.Storage.Cas.Block.{CodecLaws}
use vo_e.Storage.Cas.Backend.{write_chunks}
use vo_e.Storage.Cas.Disk.{IsDisk, block_at}
use vo_e.Storage.Cas.Written.{put_block, KnownChunks, put_block-Keeps, put_block-IsDisk}

abbrev pub IsBlock : Bytes → Type 0
IsBlock c = length c ≡ 512

module _ {S : Type 0} (from_data : Bytes → Hash) (store : BlobStore S) (codec : Codec)
    (describe : BlobError → Bytes) (compress : Bool) (Known : Bytes → Type 0)
    (hash_laws : HashLaws from_data Known) (laws : BlobLaws from_data store Known)
    (codec_laws : CodecLaws codec) where
  abbrev pub put_chunks : List Bytes → ℕ → MerkleTree → ℕ → S → Outcome StorageError MerkleTree × S
  put_chunks cs i tree lba s = write_chunks from_data store codec describe compress cs i tree lba s

  abbrev at : MerkleTree → S → ℕ → Bytes
  at = block_at store codec describe

  abbrev first_put : MerkleTree → ℕ → Bytes → S → Outcome StorageError MerkleTree × S
  first_put = put_block from_data store codec describe compress Known

  put_chunks-step :
      (c : Bytes) (cs : List Bytes) (i : ℕ) (tree : MerkleTree) (lba : ℕ) (s : S)
      → lba + i < 2 ^ 64
      → put_chunks (c ∷ cs) i tree lba s
        ≡ (first_put tree (lba + i) c >>= λ tree'. put_chunks cs (suc i) tree' lba) s
  unfolding write_chunks
  put_chunks-step c cs i tree lba s small =
      let same : (lba + i) % 2 ^ 64 ≡ lba + i = omega (arith, small) in rw same refl

  -- What the rounds leave: the blocks of the chunks from `lba + i` on, and the others as they were.
  abbrev pub Wrote : List Bytes → ℕ → MerkleTree → ℕ → S → MerkleTree → S → Type 0
  Wrote cs i tree lba s tree' t =
      IsDisk store codec describe tree' t
      × (tree'.total_sectors ≡ tree.total_sectors)
      × (tree'.depth ≡ tree.depth)
      × (row (lba + i) (length cs) (at tree' t) ≡ concat cs)
      × ((j : ℕ)
          → j < tree.total_sectors
          → (j < lba + i) ⊎ (lba + i + length cs ≤ j)
          → at tree' t j ≡ at tree s j)

  -- One round more.
  Wrote-step :
      (c : Bytes) (cs : List Bytes) (i : ℕ) (tree tree1 tree' : MerkleTree) (lba : ℕ) (s s1 t : S)
      → lba + i + suc (length cs) ≤ tree.total_sectors
      → tree1.total_sectors ≡ tree.total_sectors
      → tree1.depth ≡ tree.depth
      → ((j : ℕ)
          → j < tree.total_sectors
          → at tree1 s1 j ≡ (if j == lba + i then c else at tree s j))
      → Wrote cs (suc i) tree1 lba s1 tree' t
      → Wrote (c ∷ cs) i tree lba s tree' t
  Wrote-step c cs i tree tree1 tree' lba s s1 t fits total1 depth1 put
        (disk, total, depth, rest, kept) =
      let next : lba + suc i ≡ suc (lba + i) = omega arith in
      let first : at tree' t (lba + i) ≡ c =
        kept (lba + i) (omega (arith, fits, total1)) (inl (omega arith))
        ∙ put (lba + i) (omega (arith, fits))
        ∙ rw (let e : (lba + i == lba + i) ≡ true = (==_iff (lba + i) (lba + i)).1 refl in e)
            refl in
      (
        disk,
        total ∙ total1,
        depth ∙ depth1,
        ap (λ b. b ++ row (suc (lba + i)) (length cs) (at tree' t)) first
            ∙ ap (λ b. c ++ b) (ap (λ k. row k (length cs) (at tree' t)) (sym next) ∙ rest),
        λ j inside other.
            let off : (j == lba + i) ≡ false = elim other [
              | inl lo ↦ ground (arith, lo)
              | inr hi ↦ ground (arith, hi)
            ] in
            kept j (omega (arith, inside, total1))
              (elim other [ inl lo ↦ inl (omega (arith, lo)) | inr hi ↦ inr (omega (arith, hi)) ])
            ∙ put j inside
            ∙ rw off refl,
      )

  -- From an intact store: the rounds lose nothing, and those that all returned wrote their chunks.
  pub put_chunks-Wrote :
      (cs : List Bytes) (i : ℕ) (tree : MerkleTree) (lba : ℕ) (s : S)
      → IsDisk store codec describe tree s
      → laws.IsIntact s
      → All IsBlock cs
      → lba + i + length cs ≤ tree.total_sectors
      → tree.total_sectors < 2 ^ 55
      → KnownChunks from_data store codec describe compress Known cs i tree lba s
      → laws.IsIntact (put_chunks cs i tree lba s).1
        × Keeps store s (put_chunks cs i tree lba s).1
        × ((tree' : MerkleTree)
            → (put_chunks cs i tree lba s).0 ≡ ok tree'
            → Wrote cs i tree lba s tree' (put_chunks cs i tree lba s).1)
  unfolding write_chunks
  put_chunks-Wrote [] i tree lba s disk intact blocks fits few known = (
    intact,
    λ k x got. got,
    λ tree' done.
        let same : tree ≡ tree' = ok_inj done in
        subst (λ u. Wrote [] i tree lba s u s) same
          (disk, refl, refl, refl, λ j inside other. refl),
  )
  put_chunks-Wrote (c ∷ cs) i tree lba s disk intact (wide, blocks) fits few (known, later) =
      let small : lba + i < tree.total_sectors = omega (arith, fits) in
      let put = first_put tree (lba + i) c s in
      let (intact1, keeps1) =
        put_block-Keeps from_data store codec describe compress Known hash_laws laws codec_laws tree
          (lba + i) c s disk intact wide small known in
      elim (Outcome-cases put.0) [
        | inr (e, failed) ↦
            rw (put_chunks-step c cs i tree lba s (omega (arith, small, few)), failed)
              (
                intact1,
                keeps1,
                λ tree' done. absurd (
                    let bad : ◌≡◌ {A = Outcome StorageError MerkleTree} (err e) (ok tree') = done in
                    cc),
              )
        | inl (tree1, put_done) ↦
            let (disk1, total1, depth1, now) =
              put_block-IsDisk from_data store codec describe compress Known hash_laws laws
                codec_laws tree (lba + i) c s disk intact wide small known tree1 put_done in
            let (intact', keeps', wrote) =
              put_chunks-Wrote cs (suc i) tree1 lba put.1 disk1 intact1 blocks
                (omega (arith, fits, total1)) (omega (arith, few, total1)) (later tree1 put_done) in
            rw (put_chunks-step c cs i tree lba s (omega (arith, small, few)), put_done)
              (
                intact',
                λ k x got. keeps' k x (keeps1 k x got),
                λ tree' done.
                    Wrote-step c cs i tree tree1 tree' lba s put.1 _ fits total1 depth1 now
                      (wrote tree' done),
              )
      ]
