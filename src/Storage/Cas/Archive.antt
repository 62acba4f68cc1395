-- ===== src/Storage/Cas/Archive.antt =====
-- src/storage/cas/mod.rs: `CasBackend::new` and `with_root`, and `ArchivalStorage` of a `CasBackend`.
-- The serial number (a hash of the path), the package's version and the texts of errors are
-- parameters.
use vo_e.Common.{
  ℕ, Bytes, true, codes, Option, none, some, List, ◌++◌, Outcome, ok, err, map_err, ◌>>=◌,
  ErrorKind,
}
use vo_e.Common.Io.{Io}
use vo_e.Blob.{Hash, zero_hash}
use vo_e.Storage.{StorageError, DeviceInfo}
use vo_e.Storage.Snapshot
use vo_e.Storage.Snapshot.{SnapshotManager, SnapshotInfo, Hex, Json, SnapshotFile, unwrap_or}
use vo_e.Storage.Cas.Backend.{CasBackend}

-- The trait of src/storage/mod.rs; `snapshot` takes the time.
pub record ArchivalStorage (S : Type 0) : Type 0 where
  pub snapshot : ℕ → Option Bytes → Io S StorageError Bytes
  pub list_snapshots : S → Outcome StorageError (List SnapshotInfo)
  pub restore : Bytes → Io S StorageError (Unit {0})

abbrev pub backend_info : Bytes → Bytes → ℕ → DeviceInfo
backend_info serial firmware total_sectors = record {
  model = codes "AoE CAS Backend";
  serial = serial;
  firmware = firmware;
  total_sectors = total_sectors;
  sector_size = 512;
  lba48 = true;
}

module _ (describe_io : ErrorKind → Bytes) where
  abbrev pub load_failed : ErrorKind → StorageError
  load_failed e = StorageError.backend (codes "failed to load snapshots: " ++ describe_io e)

  abbrev pub create_failed : ErrorKind → StorageError
  create_failed e = StorageError.backend (codes "failed to create snapshot: " ++ describe_io e)

module _ {S F : Type 0} (hex : Hex) (json : Json) (file : SnapshotFile F)
    (describe_io : ErrorKind → Bytes) where
  unfoldable pub with_root :
      Bytes → Bytes → ℕ → Hash → S → F → Outcome StorageError (CasBackend S F)
  unfolding Snapshot.new
  with_root serial firmware total_sectors root_hash blobs files = do
    snapshots ← map_err (load_failed describe_io) (Snapshot.new json file files)
    ok (record {
      blobs = blobs;
      root_hash = root_hash;
      info = backend_info serial firmware total_sectors;
      snapshots = snapshots;
      compress = true;
    })

  unfoldable pub new : Bytes → Bytes → ℕ → S → F → Outcome StorageError (CasBackend S F)
  unfolding Snapshot.new Snapshot.latest
  new serial firmware total_sectors blobs files = do
    snapshots ← map_err (load_failed describe_io) (Snapshot.new json file files)
    ok (record {
      blobs = blobs;
      root_hash = unwrap_or (Snapshot.latest hex snapshots) zero_hash;
      info = backend_info serial firmware total_sectors;
      snapshots = snapshots;
      compress = true;
    })

  unfoldable pub snapshot : ℕ → Option Bytes → Io (CasBackend S F) StorageError Bytes
  unfolding Snapshot.create
  snapshot now description b =
      let (r, m) = Snapshot.create hex json file now b.root_hash description b.snapshots in
      (map_err (create_failed describe_io) r, record b { snapshots = m })

  unfoldable pub list_snapshots : CasBackend S F → Outcome StorageError (List SnapshotInfo)
  unfolding Snapshot.list
  list_snapshots b = ok (Snapshot.list b.snapshots)

  unfoldable pub restore : Bytes → Io (CasBackend S F) StorageError (Unit {0})
  unfolding Snapshot.get
  restore snapshot_id b = found (Snapshot.get hex snapshot_id b.snapshots)
    where
      found : Option Hash → Outcome StorageError (Unit {0}) × CasBackend S F
      found none = (err (StorageError.backend (codes "snapshot not found: " ++ snapshot_id)), b)
      found (some hash) = (ok tt, record b { root_hash = hash })

  abbrev pub cas_archive : ArchivalStorage (CasBackend S F)
  cas_archive = record { snapshot = snapshot; list_snapshots = list_snapshots; restore = restore }
