-- ===== src/Storage/Cas/Laws.antt =====
-- `CasBackend` is a device, on a blob store that keeps its promises.
use vo_e.Common.{
  ℕ, ◌+◌, ◌-◌, ◌*◌, ◌/◌, ◌%◌, ◌^◌, ◌≤◌, ◌<◌, ◌≡◌, refl, sym, ap, ◌∙◌, subst, arith, Bytes, inl, inr,
  ◌⊎◌, length, List, Outcome, ok, err, ok_inj, Outcome-cases, row, row_cong, length-row,
  take-drop-row, overwrite-row,
}
use vo_e.Blob.{Hash, BlobStore, BlobError, BlobLaws, HashLaws}
use vo_e.Tree
use vo_e.Tree.{MerkleTree}
use vo_e.Tree.Keeps.{Keeps}
use vo_e.Storage.{StorageError}
use vo_e.Storage.Laws.{slice, put_at, StorageLaws, validate_range-in_range}
use vo_e.Storage.Cas.{Codec, chunks}
use vo_e.Storage.Cas.Block.{CodecLaws}
use vo_e.Storage.Cas.Backend.{CasBackend, tree_of, written, read, write, flush, cas_backend}
use vo_e.Storage.Cas.Disk.{IsDisk, IsDisk-read_block, IsDisk-Keeps, block_at, read_blocks-eq-row}
use vo_e.Storage.Cas.Written.{KnownChunks}
use vo_e.Storage.Cas.Rounds.{put_chunks, Wrote, put_chunks-Wrote}
use vo_e.Storage.Cas.Chunks.{concat-chunks, chunks-IsBlock}

pub new-total_sectors : (h : Hash) (n : ℕ) → (Tree.new h n).total_sectors ≡ n
unfolding Tree.new
new-total_sectors h n = refl

pub new-root : (h : Hash) (n : ℕ) → (Tree.new h n).root_hash ≡ h
unfolding Tree.new
new-root h n = refl

-- A tree of the same size is the one made of its root.
pub new-root_hash :
    (h : Hash) (n : ℕ) (tree' : MerkleTree)
    → tree'.total_sectors ≡ (Tree.new h n).total_sectors
    → tree'.depth ≡ (Tree.new h n).depth
    → Tree.new tree'.root_hash n ≡ tree'
unfolding Tree.new
new-root_hash h n tree' total depth =
    let t : tree'.total_sectors ≡ n = total in
    let d : tree'.depth ≡ Tree.calculate_depth n = depth in
    let back : Tree.new tree'.root_hash n
        ≡ record { root_hash = tree'.root_hash; depth = tree'.depth; total_sectors = n } =
      ap (λ k. record { root_hash = tree'.root_hash; depth = k; total_sectors = n }) (sym d) in
    back
    ∙ ap (λ k. record { root_hash = tree'.root_hash; depth = tree'.depth; total_sectors = k })
        (sym t)

module _ {S F : Type 0} (from_data : Bytes → Hash) (store : BlobStore S) (codec : Codec)
    (describe : BlobError → Bytes) (Known : Bytes → Type 0) (hash_laws : HashLaws from_data Known)
    (laws : BlobLaws from_data store Known) (codec_laws : CodecLaws codec) where
  -- 512-byte sectors whose bytes a `u64` counts, a whole tree and an intact store.
  abbrev pub IsReady : CasBackend S F → Type 0
  IsReady b =
      (b.info.sector_size ≡ 512)
      × (b.info.total_sectors < 2 ^ 55)
      × IsDisk store codec describe (tree_of b) b.blobs
      × laws.IsIntact b.blobs

  abbrev pub at : CasBackend S F → ℕ → Bytes
  at b = block_at store codec describe (tree_of b) b.blobs

  -- All sectors, laid end to end.
  abbrev pub disk : CasBackend S F → Bytes
  disk b = row 0 b.info.total_sectors (at b)

  abbrev pub written_chunks : ℕ → Bytes → CasBackend S F → Outcome StorageError MerkleTree × S
  written_chunks lba d b =
      put_chunks from_data store codec describe b.compress Known hash_laws laws codec_laws
        (chunks (length d) d) 0 (tree_of b) lba b.blobs

  -- The blobs that the write stores are among those without a collision.
  abbrev pub Accepts : ℕ → Bytes → CasBackend S F → Type 0
  Accepts lba d b =
      KnownChunks from_data store codec describe b.compress Known (chunks (length d) d) 0
        (tree_of b) lba b.blobs

  pub sized :
      (b : CasBackend S F) → IsReady b → (j : ℕ) → j < b.info.total_sectors → length (at b j) ≡ 512
  sized b (_, _, ready, _) j inside =
      (IsDisk-read_block store codec describe ready j (
        let i : j < (tree_of b).total_sectors =
          rw (new-total_sectors b.root_hash b.info.total_sectors) inside in
        i)).1

  pub row-eq-slice :
      (b : CasBackend S F) (lba count : ℕ)
      → IsReady b
      → lba + count ≤ b.info.total_sectors
      → row lba count (at b) ≡ slice (lba * 512) (count * 512) (disk b)
  row-eq-slice b lba count ready fits =
      let rest = b.info.total_sectors - (lba + count) in
      let all : lba + (count + rest) ≡ b.info.total_sectors = omega (arith, fits) in
      sym (
        take-drop-row 512 lba count rest (at b)
          (λ j small. sized b ready j (omega (arith, small, all))))
      ∙ ap (λ n. slice (lba * 512) (count * 512) (row 0 n (at b))) all

  -- On a ready backend: a read in range of the disk returns its bytes, and changes nothing.
  pub read-eq-slice :
      (b : CasBackend S F) (lba count : ℕ)
      → IsReady b
      → lba + count ≤ b.info.total_sectors
      → read from_data store codec describe lba count b
        ≡ (ok (slice (lba * 512) (count * 512) (disk b)), b)
  unfolding read
  read-eq-slice b lba count ready fits =
      let size = new-total_sectors b.root_hash b.info.total_sectors in
      let none : lba + 0 ≡ lba = omega arith in
      let blocks =
        read_blocks-eq-row store codec describe ready.2 lba 0 count (omega (arith, fits, size))
          (omega (arith, ready.1, size)) in
      rw
        (
          validate_range-in_range b.info lba count fits (omega (arith, ready.1)),
          blocks,
          none,
          row-eq-slice b lba count ready fits,
        )
        refl

  module _ (b : CasBackend S F) (lba count : ℕ) (d : Bytes) (ready : IsReady b)
      (fits : lba + count ≤ b.info.total_sectors) (few : count ≤ 256) (l : length d ≡ count * 512)
      (accepts : Accepts lba d b) where
    write-eq :
        write from_data store codec describe lba d b
        ≡ written from_data store codec describe b (written_chunks lba d b)
    unfolding write
    write-eq =
        let sectors : length d / 512 % 2 ^ 8 ≤ count = omega (arith, l) in
        rw
          (validate_range-in_range b.info lba (length d / 512 % 2 ^ 8)
            (omega (arith, sectors, fits)) (omega (arith, ready.1)))
          refl

    abbrev tree : MerkleTree
    tree = tree_of b

    size : tree.total_sectors ≡ b.info.total_sectors
    size = new-total_sectors b.root_hash b.info.total_sectors

    abbrev cut : List Bytes
    cut = chunks (length d) d

    blocks : length cut ≡ count
    blocks = (chunks-IsBlock (length d) count d (omega arith) l).1

    outcome :
        laws.IsIntact (written_chunks lba d b).1
        × Keeps store b.blobs (written_chunks lba d b).1
        × ((tree' : MerkleTree)
            → (written_chunks lba d b).0 ≡ ok tree'
            → Wrote from_data store codec describe b.compress Known hash_laws laws codec_laws cut 0
                tree lba b.blobs tree'
                (written_chunks lba d b).1)
    outcome =
        put_chunks-Wrote from_data store codec describe b.compress Known hash_laws laws codec_laws
          cut 0 tree lba b.blobs ready.2 ready.3
          (chunks-IsBlock (length d) count d (omega arith) l).0 (omega (arith, fits, size, blocks))
          (omega (arith, ready.1, size)) accepts

    -- A later state of the store, under the same root.
    same_root :
        (t : S)
        → laws.IsIntact t
        → Keeps store b.blobs t
        → IsReady (record b { blobs = t }) × (disk (record b { blobs = t }) ≡ disk b)
    same_root t intact keeps =
        let (disk', same) = IsDisk-Keeps store codec describe keeps ready.2 in
        (
          (ready.0, ready.1, disk', intact),
          row_cong 0 b.info.total_sectors _ _ (λ j _ inside. same j (omega (arith, inside, size))),
        )

    abbrev new_root : MerkleTree → S → CasBackend S F
    new_root tree' t = record b { blobs = t; root_hash = tree'.root_hash }

    other_root :
        (tree' : MerkleTree) (t : S)
        → laws.IsIntact t
        → Wrote from_data store codec describe b.compress Known hash_laws laws codec_laws cut 0 tree
            lba b.blobs tree' t
        → IsReady (new_root tree' t) × (disk (new_root tree' t) ≡ put_at (lba * 512) d (disk b))
    other_root tree' t intact (disk', total, depth, wrote, kept) =
        let root : tree_of (new_root tree' t) ≡ tree' =
          new-root_hash b.root_hash b.info.total_sectors tree' total depth in
        let rest = b.info.total_sectors - (lba + count) in
        let all : lba + (count + rest) ≡ b.info.total_sectors = omega (arith, fits) in
        let g = block_at store codec describe tree' t in
        let here : row lba count g ≡ d =
          ap (λ n. row lba n g) (sym blocks)
          ∙ ap (λ k. row k (length cut) g) (let e : lba ≡ lba + 0 = omega arith in e)
          ∙ wrote
          ∙ concat-chunks (length d) d (omega arith) in
        let over =
          overwrite-row 512 lba count rest (at b)
            (λ j small. sized b ready j (omega (arith, small, all))) g
            (λ j low. kept j (omega (arith, low, fits, size)) (inl (omega (arith, low))))
            (λ j hi inside.
              kept j (omega (arith, inside, all, size)) (inr (omega (arith, hi, blocks))))
            (ap length here ∙ l) in
        (
          (ready.0, ready.1, subst (λ u. IsDisk store codec describe u t) (sym root) disk', intact),
          ap (λ u. row 0 b.info.total_sectors (block_at store codec describe u t)) root
              ∙ ap (λ n. row 0 n g) (sym all)
              ∙ over
              ∙ ap (λ n. put_at (lba * 512) (row lba count g) (row 0 n (at b))) all
              ∙ ap (λ x. put_at (lba * 512) x (disk b)) here,
        )

    -- A write that fails keeps the root, and with it the disk.
    pub write-failed :
        (e : StorageError)
        → (write from_data store codec describe lba d b).0 ≡ err e
        → let b' = (write from_data store codec describe lba d b).1 in
          IsReady b' × (disk b' ≡ disk b) × (b'.info ≡ b.info)
    write-failed e h =
        let (intact, keeps, _) = outcome in
        let h' = sym (ap (λ r. r.0) write-eq) ∙ h in
        elim (Outcome-cases (written_chunks lba d b).0) [
          | inl (tree', done) ↦ absurd (
              let bad : ◌≡◌ {A = Outcome StorageError (Unit {0})} (ok tt) (err e) = rw done at h' in
              cc)
          | inr (e', failed) ↦
              let (ready', same) = same_root (written_chunks lba d b).1 intact keeps in
              rw (write-eq, failed) (ready', same, refl)
        ]

    -- A write that returned put its bytes in place.
    pub write-done :
        (write from_data store codec describe lba d b).0 ≡ ok tt
        → let b' = (write from_data store codec describe lba d b).1 in
          IsReady b' × (disk b' ≡ put_at (lba * 512) d (disk b)) × (b'.info ≡ b.info)
    write-done h =
        let (intact, keeps, wrote) = outcome in
        let h' = sym (ap (λ r. r.0) write-eq) ∙ h in
        elim (Outcome-cases (written_chunks lba d b).0) [
          | inl (tree', done) ↦
              let (ready', same) =
                other_root tree' (written_chunks lba d b).1 intact (wrote tree' done) in
              rw (write-eq, done) (ready', same, refl)
          | inr (e, failed) ↦ absurd (
              let bad : ◌≡◌ {A = Outcome StorageError (Unit {0})} (err e) (ok tt) =
                rw failed at h' in
              cc)
        ]

    -- On a ready backend, a write of at most 256 sectors in range whose blobs do not collide is all or
    -- nothing: if it returned, the disk's bytes have the data put in place, and if it failed, they are
    -- as they were. The backend is ready in both cases, and its description the same.
    pub write-Atomic :
        let m = write from_data store codec describe lba d b in
        IsReady m.1
        × (m.1.info ≡ b.info)
        × (((m.0 ≡ ok tt) × (disk m.1 ≡ put_at (lba * 512) d (disk b)))
            ⊎ ((e : StorageError) × (m.0 ≡ err e) × (disk m.1 ≡ disk b)))
    write-Atomic = elim (Outcome-cases (write from_data store codec describe lba d b).0) [
      | inl (tt, h) ↦ let (ready', placed, same) = write-done h in (ready', same, inl (h, placed))
      | inr (e, h) ↦ let (ready', kept, same) = write-failed e h in (ready', same, inr (e, h, kept))
    ]

    -- A write, returned or failed, loses no blob and touches the root alone.
    pub write-Keeps :
        let b' = (write from_data store codec describe lba d b).1 in
        Keeps store b.blobs b'.blobs × (b'.snapshots ≡ b.snapshots) × (b'.info ≡ b.info)
    write-Keeps =
        let (intact, keeps, wrote) = outcome in
        elim (Outcome-cases (written_chunks lba d b).0) [
          | inl (tree', done) ↦ rw (write-eq, done) (keeps, refl, refl)
          | inr (e, failed) ↦ rw (write-eq, failed) (keeps, refl, refl)
        ]

  -- A flush keeps the disk, also when it fails.
  pub flush-keeps :
      (b : CasBackend S F)
      → IsReady b
      → let b' = (flush from_data store codec describe b).1 in
        IsReady b' × (disk b' ≡ disk b) × (b'.info ≡ b.info)
  unfolding flush
  flush-keeps b (wide, few, ready, intact) =
      let t = (store.sync b.blobs).1 in
      let keeps : Keeps store b.blobs t = λ k x got. laws.get-sync b.blobs k intact ∙ got in
      let (disk', same) = IsDisk-Keeps store codec describe keeps ready in
      let size = new-total_sectors b.root_hash b.info.total_sectors in
      (
        (wide, few, disk', laws.sync-IsIntact b.blobs intact),
        row_cong 0 b.info.total_sectors _ _ (λ j _ inside. same j (omega (arith, inside, size))),
        refl,
      )

  -- `CasBackend` fills the interface.
  cas_backend_laws : StorageLaws (cas_backend {S = S} {F = F} from_data store codec describe)
  cas_backend_laws = record {
    IsReady = IsReady;
    disk = disk;
    Accepts = Accepts;
    read_ok = λ lba count b d ready fits h.
        ok_inj (sym h ∙ ap (λ r. r.0) (read-eq-slice b lba count ready fits));
    read_keeps =
        λ lba count b ready fits. rw (read-eq-slice b lba count ready fits) (ready, refl, refl);
    write_ok = λ lba count d b ready fits few l accepts h.
        (write-done b lba count d ready fits few l accepts h).1;
    write_ready = λ lba count d b ready fits few l accepts.
        let (ready', same, _) = write-Atomic b lba count d ready fits few l accepts in
        (ready', same);
    flush_keeps = flush-keeps;
    disk_size = λ b ready. omega (
      arith,
      length-row 512 0 b.info.total_sectors (at b)
          (λ j _ inside. sized b ready j (omega (arith, inside))),
    );
  }
