-- ===== src/Storage/Cas/Restore.antt =====
-- What a snapshot is good for.
use vo_e.Common.{
  ℕ, ◌≡◌, refl, sym, ap, ◌∙◌, subst, Bytes, ◌++◌, [], ◌∷◌, Option, some, Outcome, ok, true,
  map_err-eq-ok, ErrorKind,
}
use vo_e.Blob.{Hash, BlobStore, BlobError, BlobLaws, HashLaws}
use vo_e.Storage.{StorageError}
use vo_e.Storage.Snapshot
use vo_e.Storage.Snapshot.{
  Hex, Json, SnapshotFile, SnapshotManager, last, from_hex, opt_bind, unwrap_or,
}
use vo_e.Storage.Snapshot.Laws.{
  HexLaws, SnapshotFileLaws, IsListed, IsListed-new, get-IsListed, from_hex-encode,
  create-snapshots, create-eq-ok, entry_of, last-append, new-save,
}
use vo_e.Storage.Cas.{Codec}
use vo_e.Storage.Cas.Block.{CodecLaws}
use vo_e.Storage.Cas.Backend.{CasBackend}
use vo_e.Storage.Cas.Archive.{backend_info, snapshot, restore, new, create_failed}
use vo_e.Storage.Cas.History.{
  Good, bytes_of, Used, Step, Reach, Step-IsArchive, Used-Later, IsArchive, wide_root, Reach-Later,
  same-IsDisk,
}

module _ {S F : Type 0} (from_data : Bytes → Hash) (store : BlobStore S) (codec : Codec)
    (describe : BlobError → Bytes) (Known : Bytes → Type 0) (hash_laws : HashLaws from_data Known)
    (laws : BlobLaws from_data store Known) (codec_laws : CodecLaws codec) (hex : Hex) (json : Json)
    (file : SnapshotFile F) (describe_io : ErrorKind → Bytes) (hex_laws : HexLaws hex) where
  abbrev Backend : Type 0
  Backend = CasBackend S F

  abbrev Ready : Backend → Type 0
  Ready b =
      Good from_data store codec describe Known hash_laws laws codec_laws hex json file describe_io
        b

  abbrev Archive : Backend → Type 0
  Archive b =
      IsArchive from_data store codec describe Known hash_laws laws codec_laws hex json file
        describe_io b

  abbrev bytes : Backend → Bytes
  bytes b =
      bytes_of from_data store codec describe Known hash_laws laws codec_laws hex json file
        describe_io b

  abbrev took : ℕ → Option Bytes → Backend → Outcome StorageError Bytes × Backend
  took now description b = snapshot hex json file describe_io now description b

  abbrev Reached : Backend → Backend → Type 0
  Reached b c =
      Reach from_data store codec describe Known hash_laws laws codec_laws hex json file describe_io
        b c

  abbrev UsedTo : Backend → Backend → Type 0
  UsedTo b c =
      Used from_data store codec describe Known hash_laws laws codec_laws hex json file describe_io
        b c

  took-eq-ok :
      (b : Backend) (now : ℕ) (description : Option Bytes) (id : Bytes)
      → (took now description b).0 ≡ ok id
      → let es =
          b.snapshots.snapshots ++ (entry_of hex json file now b.root_hash description ∷ []) in
        (id ≡ hex.encode b.root_hash)
        × ((took now description b).1.snapshots.snapshots ≡ es)
        × ((Snapshot.save json file es b.snapshots.files).0 ≡ ok tt)
        × ((took now description b).1.snapshots.files
            ≡ (Snapshot.save json file es b.snapshots.files).1)
  unfolding snapshot
  took-eq-ok b now description id done =
      let created =
        map_err-eq-ok (create_failed describe_io)
          (Snapshot.create hex json file now b.root_hash description b.snapshots).0 done in
      let (named, (saved, files)) =
        create-eq-ok hex json file now b.root_hash description b.snapshots id created in
      (named, create-snapshots hex json file now b.root_hash description b.snapshots, saved, files)

  -- From a ready backend with ready snapshots: after a snapshot that returned, and then any sequence
  -- of reads, writes, flushes, snapshots and restores, returned or failed, a restore of that snapshot
  -- returns, the disk has the bytes of the time of the snapshot, and all is ready.
  pub snapshot-restore :
      (b c : Backend) (now : ℕ) (description : Option Bytes) (id : Bytes)
      → Archive b
      → (took now description b).0 ≡ ok id
      → Reached (took now description b).1 c
      → let back = restore hex json file describe_io id c in
        (back.0 ≡ ok tt) × Archive back.1 × (bytes back.1 ≡ bytes b)
  unfolding snapshot restore
  snapshot-restore b c now description id archive done reached =
      let b1 = (took now description b).1 in
      let (named, listed, _, _) = took-eq-ok b now description id done in
      let archive1 =
        Step-IsArchive from_data store codec describe Known hash_laws laws codec_laws hex json file
          describe_io hex_laws (Step.snapshots b now description) archive in
      let (archive', later) =
        Reach-Later from_data store codec describe Known hash_laws laws codec_laws hex json file
          describe_io hex_laws reached archive1 in
      let there : IsListed (hex.encode b.root_hash) c.snapshots.snapshots =
        later.2 (hex.encode b.root_hash) (
          subst (IsListed (hex.encode b.root_hash)) (sym listed) (
            IsListed-new b.snapshots.snapshots
              (entry_of hex json file now b.root_hash description))) in
      let wide =
        wide_root from_data store codec describe Known hash_laws laws codec_laws hex json file
          describe_io b archive.0 in
      let found : Snapshot.get hex id c.snapshots ≡ some b.root_hash =
        ap (λ k. Snapshot.get hex k c.snapshots) named
        ∙ get-IsListed hex hex_laws b.root_hash c.snapshots wide there in
      let (_, same) =
        same-IsDisk from_data store codec describe Known hash_laws laws codec_laws hex json file
          describe_io b1 c b.root_hash later archive.0.2 in
      let restored =
        Step-IsArchive from_data store codec describe Known hash_laws laws codec_laws hex json file
          describe_io hex_laws (Step.restores c id) archive' in
      (rw found refl, restored, rw found same)

  -- From a ready backend: after a snapshot that returned, and then reads, writes and flushes alone, a
  -- backend that `new` opens on the same blobs and the same snapshots' file, for the same number of
  -- sectors, has the bytes of the time of the snapshot: what was written later is gone, flushed or not.
  pub snapshot-new :
      (b c : Backend) (now : ℕ) (description : Option Bytes) (id serial firmware : Bytes)
      → SnapshotFileLaws json file
      → Ready b
      → (took now description b).0 ≡ ok id
      → UsedTo (took now description b).1 c
      → (n : Backend) × (new hex json file describe_io serial firmware c.info.total_sectors c.blobs
            c.snapshots.files
          ≡ ok n)
        × (bytes n ≡ bytes b)
  unfolding snapshot new Snapshot.latest
  snapshot-new b c now description id serial firmware file_laws ready done usage =
      let (named, listed, saved, files) = took-eq-ok b now description id done in
      let b1 = (took now description b).1 in
      let entry = entry_of hex json file now b.root_hash description in
      let es = b.snapshots.snapshots ++ (entry ∷ []) in
      let (good', later, same) =
        Used-Later from_data store codec describe Known hash_laws laws codec_laws hex json file
          describe_io usage ready in
      let m : SnapshotManager F = record {
        snapshots = es;
        files = (Snapshot.save json file es b.snapshots.files).1;
      } in
      let at_c : c.snapshots.files ≡ (Snapshot.save json file es b.snapshots.files).1 =
        ap (λ (x : SnapshotManager F). x.files) same ∙ files in
      let loaded : Snapshot.new json file c.snapshots.files ≡ ok m =
        ap (Snapshot.new json file) at_c
        ∙ new-save hex json file file_laws es b.snapshots.files saved in
      let wide =
        wide_root from_data store codec describe Known hash_laws laws codec_laws hex json file
          describe_io b ready in
      let newest : opt_bind (last es) (λ e. from_hex hex e.root) ≡ some b.root_hash =
        ap (λ o. opt_bind o (λ e. from_hex hex e.root)) (last-append b.snapshots.snapshots entry)
        ∙ from_hex-encode hex hex_laws b.root_hash wide in
      let (_, kept) =
        same-IsDisk from_data store codec describe Known hash_laws laws codec_laws hex json file
          describe_io b1 c b.root_hash later ready.2 in
      (
        record {
          blobs = c.blobs;
          root_hash = b.root_hash;
          info = backend_info serial firmware c.info.total_sectors;
          snapshots = m;
          compress = true;
        },
        rw (loaded, newest) refl,
        kept,
      )
