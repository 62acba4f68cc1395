-- ===== src/Storage/Cas/History.antt =====
-- The life of a `CasBackend`: reads, writes, flushes, snapshots and restores in any order, each
-- returned or failed.
use vo_e.Common.{
  ℕ, ◌+◌, ◌*◌, ◌≤◌, ◌≡◌, refl, sym, ap, ◌∙◌, subst, arith, Bytes, inl, inr, length, row, row_cong,
  Option, none, some, Option-cases, [], ◌∷◌, ◌++◌, some_inj, ErrorKind,
}
use vo_e.Blob.{Hash, BlobStore, BlobError, BlobLaws, HashLaws}
use vo_e.Tree
use vo_e.Tree.{MerkleTree}
use vo_e.Tree.Keeps.{Keeps}
use vo_e.Storage.{DeviceInfo}
use vo_e.Storage.Snapshot
use vo_e.Storage.Snapshot.{
  Hex, Json, SnapshotFile, SnapshotManager, SnapshotEntry, find, from_hex, opt_bind,
}
use vo_e.Storage.Snapshot.Laws.{
  HexLaws, IsListed, IsListed-append, find-append, from_hex-encode, create-snapshots, entry_of,
}
use vo_e.Storage.Cas.{Codec}
use vo_e.Storage.Cas.Block.{CodecLaws}
use vo_e.Storage.Cas.Backend.{CasBackend, read, write, flush}
use vo_e.Storage.Cas.Disk.{IsDisk, IsDisk-Keeps, block_at}
use vo_e.Storage.Cas.Laws.{
  IsReady, disk, Accepts, new-total_sectors, new-root, read-eq-slice, write-Atomic, write-Keeps,
  flush-keeps,
}
use vo_e.Storage.Cas.Archive.{snapshot, restore}

module _ {S F : Type 0} (from_data : Bytes → Hash) (store : BlobStore S) (codec : Codec)
    (describe : BlobError → Bytes) (Known : Bytes → Type 0) (hash_laws : HashLaws from_data Known)
    (laws : BlobLaws from_data store Known) (codec_laws : CodecLaws codec) (hex : Hex) (json : Json)
    (file : SnapshotFile F) (describe_io : ErrorKind → Bytes) where
  abbrev pub Backend : Type 0
  Backend = CasBackend S F

  abbrev pub Good : Backend → Type 0
  Good b = IsReady from_data store codec describe Known hash_laws laws codec_laws b

  abbrev pub bytes_of : Backend → Bytes
  bytes_of b = disk from_data store codec describe Known hash_laws laws codec_laws b

  -- A call of the block device: a read or a write within the disk, or a flush.
  pub data Access : Backend → Backend → Type 0 where
    reads :
        (b : Backend) (lba count : ℕ)
        → lba + count ≤ b.info.total_sectors
        → Access b (read from_data store codec describe lba count b).1
    writes :
        (b : Backend) (lba count : ℕ) (d : Bytes)
        → lba + count ≤ b.info.total_sectors
        → count ≤ 256
        → length d ≡ count * 512
        → Accepts from_data store codec describe Known hash_laws laws codec_laws lba d b
        → Access b (write from_data store codec describe lba d b).1
    flushes : (b : Backend) → Access b (flush from_data store codec describe b).1

  pub data Step : Backend → Backend → Type 0 where
    accesses : {b c : Backend} → Access b c → Step b c
    snapshots :
        (b : Backend) (now : ℕ) (description : Option Bytes)
        → Step b (snapshot hex json file describe_io now description b).1
    restores : (b : Backend) (id : Bytes) → Step b (restore hex json file describe_io id b).1

  pub data Reach (b : Backend) : Backend → Type 0 where
    start : Reach b b
    more : {c d : Backend} → Reach b c → Step c d → Reach b d

  -- Calls of the block device alone.
  pub data Used (b : Backend) : Backend → Type 0 where
    unused : Used b b
    used : {c d : Backend} → Used b c → Access c d → Used b d

  -- The disk under a root hash.
  abbrev pub tree_under : Hash → Backend → MerkleTree
  tree_under h b = Tree.new h b.info.total_sectors

  -- The backend is ready, and so is the disk of every snapshot.
  abbrev pub IsArchive : Backend → Type 0
  IsArchive b =
      Good b
      × ((id : Bytes) (h : Hash)
          → Snapshot.get hex id b.snapshots ≡ some h
          → IsDisk store codec describe (tree_under h b) b.blobs)

  -- No blob is lost, no snapshot forgotten, and the device is the same.
  abbrev pub Later : Backend → Backend → Type 0
  Later b c =
      Keeps store b.blobs c.blobs
      × (c.info ≡ b.info)
      × ((id : Bytes) → IsListed id b.snapshots.snapshots → IsListed id c.snapshots.snapshots)

  Access-Later : {b c : Backend} → Access b c → Good b → Later b c × (c.snapshots ≡ b.snapshots)
  unfolding flush
  Access-Later (reads b lba count fits) good =
      rw
        (read-eq-slice from_data store codec describe Known hash_laws laws codec_laws b lba count
          good fits)
        ((λ k x got. got, refl, λ id l. l), refl)
  Access-Later (writes b lba count d fits few l accepts) good =
      let (keeps, same, info) =
        write-Keeps from_data store codec describe Known hash_laws laws codec_laws b lba count d
          good fits few l accepts in
      (
        (
          keeps,
          info,
          λ id listed. subst (λ (m : SnapshotManager F). IsListed id m.snapshots) (sym same) listed,
        ),
        same,
      )
  Access-Later (flushes b) good =
      ((λ k x got. laws.get-sync b.blobs k good.3 ∙ got, refl, λ id l. l), refl)

  pub Access-Good : {b c : Backend} → Access b c → Good b → Good c
  Access-Good (reads b lba count fits) good =
      rw
        (read-eq-slice from_data store codec describe Known hash_laws laws codec_laws b lba count
          good fits)
        good
  Access-Good (writes b lba count d fits few l accepts) good =
      (write-Atomic from_data store codec describe Known hash_laws laws codec_laws b lba count d
        good fits few l accepts).0
  Access-Good (flushes b) good =
      (flush-keeps from_data store codec describe Known hash_laws laws codec_laws b good).0

  -- The tree of a snapshot is a disk later too, with the same bytes.
  pub same-IsDisk :
      (b c : Backend) (h : Hash)
      → Later b c
      → IsDisk store codec describe (tree_under h b) b.blobs
      → IsDisk store codec describe (tree_under h c) c.blobs
        × (row 0 c.info.total_sectors (block_at store codec describe (tree_under h c) c.blobs)
            ≡ row 0 b.info.total_sectors (block_at store codec describe (tree_under h b) b.blobs))
  same-IsDisk b c h (keeps, info, _) ready =
      let (ready', same) = IsDisk-Keeps store codec describe keeps ready in
      subst
        (λ (i : DeviceInfo).
          IsDisk store codec describe (Tree.new h i.total_sectors) c.blobs
          × (row 0 i.total_sectors
                (block_at store codec describe (Tree.new h i.total_sectors) c.blobs)
              ≡ row 0 b.info.total_sectors
                  (block_at store codec describe (tree_under h b) b.blobs)))
        (sym info)
        (
          ready',
          row_cong 0 b.info.total_sectors _ _ (λ j _ inside.
              same j (omega (arith, inside, new-total_sectors h b.info.total_sectors))),
        )

  Access-IsArchive : {b c : Backend} → Access b c → IsArchive b → IsArchive c
  Access-IsArchive {b} {c} access (good, kept) =
      let (later, same) = Access-Later access good in
      (
        Access-Good access good,
        λ id h found.
            (same-IsDisk b c h later (kept id h (ap (Snapshot.get hex id) (sym same) ∙ found))).0,
      )

  pub wide_root : (b : Backend) → Good b → length b.root_hash ≡ 32
  wide_root b good = ap length (sym (new-root b.root_hash b.info.total_sectors)) ∙ good.2.root

  -- They change no snapshot.
  pub Used-Later :
      {b c : Backend} → Used b c → Good b → Good c × Later b c × (c.snapshots ≡ b.snapshots)
  Used-Later unused good = (good, (λ k x got. got, refl, λ id l. l), refl)
  Used-Later (used before access) good =
      let (good', (keeps, info, listed), same) = Used-Later before good in
      let ((keeps', info', listed'), same') = Access-Later access good' in
      (
        Access-Good access good',
        (λ k x got. keeps' k x (keeps k x got), info' ∙ info, λ id l. listed' id (listed id l)),
        same' ∙ same,
      )

  module _ (hex_laws : HexLaws hex) where
    snapshot-IsArchive :
        (b : Backend) (now : ℕ) (description : Option Bytes)
        → IsArchive b
        → IsArchive (snapshot hex json file describe_io now description b).1
    unfolding snapshot Snapshot.get
    snapshot-IsArchive b now description (good, kept) = (
      good,
      λ id h found.
          let n = entry_of hex json file now b.root_hash description in
          let es = b.snapshots.snapshots in
          let found' : opt_bind (find id (es ++ (n ∷ []))) (λ e. from_hex hex e.root) ≡ some h =
            rw (create-snapshots hex json file now b.root_hash description b.snapshots) at found in
          elim (Option-cases (find id (es ++ (n ∷ [])))) [
            | inl nothing ↦
                absurd (let bad : ◌≡◌ {A = Option Hash} none (some h) = rw nothing at found' in cc)
            | inr (x, e) ↦
                let at_x : from_hex hex x.root ≡ some h = rw e at found' in
                elim (find-append id es n x e) [
                  | inl old ↦ kept id h (rw old at_x)
                  | inr new ↦
                      let at_n : from_hex hex (hex.encode b.root_hash) ≡ some h =
                        ap (λ (y : SnapshotEntry). from_hex hex y.root) (sym new) ∙ at_x in
                      let same : b.root_hash ≡ h = some_inj (
                        sym (from_hex-encode hex hex_laws b.root_hash (wide_root b good)) ∙ at_n) in
                      subst (λ y. IsDisk store codec describe (tree_under y b) b.blobs) same good.2
                ]
          ],
    )

    restore-IsArchive :
        (b : Backend) (id : Bytes)
        → IsArchive b
        → IsArchive (restore hex json file describe_io id b).1
    unfolding restore
    restore-IsArchive b id (good, kept) = elim (Option-cases (Snapshot.get hex id b.snapshots)) [
      | inl nothing ↦ rw nothing (good, kept)
      | inr (h, found) ↦ rw found ((good.0, good.1, kept id h found, good.3), kept)
    ]

    -- Every call, returned or failed, keeps the backend and the disks of all its snapshots ready.
    pub Step-IsArchive : {b c : Backend} → Step b c → IsArchive b → IsArchive c
    Step-IsArchive (accesses access) archive = Access-IsArchive access archive
    Step-IsArchive (snapshots b now description) archive =
        snapshot-IsArchive b now description archive
    Step-IsArchive (restores b id) archive = restore-IsArchive b id archive

    pub Step-Later : {b c : Backend} → Step b c → IsArchive b → Later b c
    unfolding snapshot restore
    Step-Later (accesses access) archive = (Access-Later access archive.0).0
    Step-Later (snapshots b now description) archive = (
      λ k x got. got,
      refl,
      λ id listed.
          subst (IsListed id)
            (sym (create-snapshots hex json file now b.root_hash description b.snapshots))
            (IsListed-append id b.snapshots.snapshots _ listed),
    )
    Step-Later (restores b id) archive = elim (Option-cases (Snapshot.get hex id b.snapshots)) [
      | inl nothing ↦ rw nothing (λ k x got. got, refl, λ k l. l)
      | inr (h, found) ↦ rw found (λ k x got. got, refl, λ k l. l)
    ]

    pub Reach-Later : {b c : Backend} → Reach b c → IsArchive b → IsArchive c × Later b c
    Reach-Later start archive = (archive, (λ k x got. got, refl, λ id l. l))
    Reach-Later (more reached step) archive =
        let (archive', (keeps, info, listed)) = Reach-Later reached archive in
        let (keeps', info', listed') = Step-Later step archive' in
        (
          Step-IsArchive step archive',
          (λ k x got. keeps' k x (keeps k x got), info' ∙ info, λ id l. listed' id (listed id l)),
        )
