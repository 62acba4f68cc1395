-- ===== src/Storage/Cas/Written.antt =====
-- The loop of `write`: what it stores, and the disk that it leaves.
use vo_e.Common.{
  ℕ, suc, ◌+◌, ◌<◌, ◌≡◌, refl, sym, ap, ◌∙◌, subst, arith, Bytes, Bool, false, Bool-cases, inl, inr,
  if◌then◌else◌, ◌==◌, length, All, List, [], ◌∷◌, Outcome, ok, Outcome-cases, map_err-eq-ok,
}
use vo_e.Common.Io.{map_err, >>=-eq-ok}
use vo_e.Blob.{Hash, BlobStore, BlobError, BlobLaws, HashLaws}
use vo_e.Tree.{MerkleTree, lookup}
use vo_e.Tree.Keeps.{Keeps}
use vo_e.Tree.Update.{update}
use vo_e.Tree.Correct.{IsWhole, update_nodes, update_safe, update-lookup, update-size}
use vo_e.Storage.{StorageError}
use vo_e.Storage.Cas.{Codec, all_zero, encoded, as_backend, retrieve_block}
use vo_e.Storage.Cas.Block.{
  CodecLaws, retrieve_block-Keeps, store_block-Keeps, store_block-retrieve,
}
use vo_e.Storage.Cas.Backend.{store_block, write_block}
use vo_e.Storage.Cas.Disk.{IsDisk, IsDisk-Keeps, block_at}

module _ {S : Type 0} (from_data : Bytes → Hash) (store : BlobStore S) (codec : Codec)
    (describe : BlobError → Bytes) (compress : Bool) (Known : Bytes → Type 0) where
  abbrev pub keep_block : Bytes → S → Outcome StorageError Hash × S
  keep_block c s = store_block from_data store codec describe compress c s

  abbrev pub put_block : MerkleTree → ℕ → Bytes → S → Outcome StorageError MerkleTree × S
  put_block tree n c s = write_block from_data store codec describe compress tree n c s

  -- The blobs that one round stores are among those without a collision.
  abbrev pub KnownBlock : MerkleTree → ℕ → Bytes → S → Type 0
  KnownBlock tree n c s =
      (all_zero c ≡ false → Known (encoded codec compress c))
      × ((h : Hash)
          → (keep_block c s).0 ≡ ok h
          → All Known (update_nodes store from_data tree n h (keep_block c s).1))

  -- The same of all rounds.
  abbrev pub KnownChunks : List Bytes → ℕ → MerkleTree → ℕ → S → Type 0
  KnownChunks [] i tree lba s = Unit {0}
  KnownChunks (c ∷ cs) i tree lba s =
      KnownBlock tree (lba + i) c s
      × ((tree' : MerkleTree)
          → (put_block tree (lba + i) c s).0 ≡ ok tree'
          → KnownChunks cs (suc i) tree' lba (put_block tree (lba + i) c s).1)

  module _ (hash_laws : HashLaws from_data Known) (laws : BlobLaws from_data store Known)
      (codec_laws : CodecLaws codec) where
    module _ (tree : MerkleTree) (n : ℕ) (c : Bytes) (s : S)
        (disk : IsDisk store codec describe tree s) (intact : laws.IsIntact s)
        (wide : length c ≡ 512) (small : n < tree.total_sectors)
        (known : KnownBlock tree n c s) where
      abbrev s1 : S
      s1 = (keep_block c s).1

      kept : laws.IsIntact s1 × Keeps store s s1
      kept =
          store_block-Keeps from_data store codec describe compress Known hash_laws laws codec_laws
            c s intact known.0

      hashed :
          (h : Hash)
          → (keep_block c s).0 ≡ ok h
          → (length h ≡ 32) × (retrieve_block store codec describe h s1 ≡ ok c)
      hashed h e =
          store_block-retrieve from_data store codec describe compress Known hash_laws laws
            codec_laws c s intact known.0 h wide e

      disk1 : IsDisk store codec describe tree s1
      disk1 = (IsDisk-Keeps store codec describe kept.1 disk).0

      module _ (h : Hash) (e : (keep_block c s).0 ≡ ok h) where
        updated :
            laws.IsIntact (update from_data store tree n h s1).1
            × Keeps store s1 (update from_data store tree n h s1).1
        updated =
            update_safe from_data store Known hash_laws laws tree n h s1 (hashed h e).0 disk1.whole
              kept.0 (known.1 h e) small

        put_block-eq-update :
            put_block tree n c s
            ≡ map_err (as_backend store codec describe) (update from_data store tree n h) s1
        unfolding write_block
        put_block-eq-update = rw e refl

      -- A round loses nothing, also when it fails.
      pub put_block-Keeps :
          laws.IsIntact (put_block tree n c s).1 × Keeps store s (put_block tree n c s).1
      unfolding write_block
      put_block-Keeps = elim (Outcome-cases (keep_block c s).0) [
        | inl (h, e) ↦
            let (intact2, keeps2) = updated h e in
            rw (put_block-eq-update h e) (intact2, λ k x got. keeps2 k x (kept.1 k x got))
        | inr (k, failed) ↦ rw failed kept
      ]

      module _ (tree' : MerkleTree) (done : (put_block tree n c s).0 ≡ ok tree') where
        abbrev t : S
        t = (put_block tree n c s).1

        abbrev s2 : Hash → S
        s2 h = (update from_data store tree n h s1).1

        -- The hash of the block, and the update with it.
        stored :
            (h : Hash) × ((keep_block c s).0 ≡ ok h)
            × ((update from_data store tree n h s1).0 ≡ ok tree')
            × (t ≡ s2 h)
        unfolding write_block
        stored =
            let (h, e, rest) =
              >>=-eq-ok (store_block from_data store codec describe compress c)
                (λ h. map_err (as_backend store codec describe) (update from_data store tree n h)) s
                done in
            (
              h,
              e,
              map_err-eq-ok (as_backend store codec describe) (update from_data store tree n h s1).0
                  rest,
              ap (λ (r : Outcome StorageError MerkleTree × S). r.1) (put_block-eq-update h e),
            )

        abbrev Sector : ℕ → S → Type 0
        Sector j u =
            (h : Hash) × (d : Bytes) × (lookup store tree' j u ≡ ok h)
            × (retrieve_block store codec describe h u ≡ ok d)
            × (length d ≡ 512)
            × (d ≡ (if j == n then c else block_at store codec describe tree s j))

        sector : (j : ℕ) → j < tree.total_sectors → Sector j t
        sector j inside =
            let (h, e, put_done, at_t) = stored in
            let (intact2, keeps2) = updated h e in
            let (_, agrees) =
              update-lookup from_data store Known hash_laws laws tree n h s1 (hashed h e).0
                disk1.whole kept.0 (known.1 h e) small put_done in
            let found' = agrees j inside in
            subst (Sector j) (sym at_t) (elim (Bool-cases (j == n)) [
              | inl here ↦ (
                h,
                c,
                found' ∙ rw here refl,
                retrieve_block-Keeps store codec describe h c keeps2 (hashed h e).1,
                wide,
                rw here refl,
              )
              | inr other ↦
                  let (h', d, found, got, wide') = disk1.sectors j inside in
                  let same = (IsDisk-Keeps store codec describe kept.1 disk).1 j inside in
                  let here : block_at store codec describe tree s1 j ≡ d = rw (found, got) refl in
                  (
                    h',
                    d,
                    found' ∙ rw (other, found) refl,
                    retrieve_block-Keeps store codec describe h' d keeps2 got,
                    wide',
                    rw other (sym here ∙ same),
                  )
            ])

        size :
            (tree'.total_sectors ≡ tree.total_sectors)
            × (tree'.depth ≡ tree.depth)
            × (length tree'.root_hash ≡ 32)
        size =
            let (h, e, put_done, at_t) = stored in
            update-size from_data store Known hash_laws laws tree n h s1 (hashed h e).0 disk1.whole
              kept.0 (known.1 h e) small put_done

        -- A round that returned put its block at its sector, and left the others as they were.
        pub put_block-IsDisk :
            IsDisk store codec describe tree' t
            × (tree'.total_sectors ≡ tree.total_sectors)
            × (tree'.depth ≡ tree.depth)
            × ((j : ℕ)
                → j < tree.total_sectors
                → block_at store codec describe tree' t j
                  ≡ (if j == n then c else block_at store codec describe tree s j))
        put_block-IsDisk =
            let (h, e, put_done, at_t) = stored in
            let (whole', _) =
              update-lookup from_data store Known hash_laws laws tree n h s1 (hashed h e).0
                disk1.whole kept.0 (known.1 h e) small put_done in
            (
              record {
                whole = subst (IsWhole store tree') (sym at_t) whole';
                root = size.2;
                sectors = λ j inside.
                    let (h', d, found, got, wide', _) =
                      sector j
                        (let i : j < tree.total_sectors = omega (arith, inside, size.0) in i) in
                    (h', d, found, got, wide');
              },
              size.0,
              size.1,
              λ j inside.
                  let (h', d, found, got, wide', what) = sector j inside in
                  let now : block_at store codec describe tree' t j ≡ d = rw (found, got) refl in
                  now ∙ what,
            )
