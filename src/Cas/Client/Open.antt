-- ===== src/Cas/Client/Open.antt =====
-- src/storage/cas_client.rs: the opening of a `CasBackend` of the CAS service. The connection and the
-- reading of the index's file are parameters.
use vo_e.Common.{
  ℕ, ◌*◌, ◌/◌, Bytes, Bool, true, codes, replicate, [], ◌++◌, if◌then◌else◌, Outcome, ok, map_err,
  ◌>>=◌, >>=-eq-ok, ErrorKind, ◌≡◌, refl, subst, false, length, ok_inj,
}
use vo_e.Storage.{StorageError, DeviceInfo}
use vo_e.Common.Stream.{Reader, Writer}
use vo_e.Cas.Client.Index.{put_cas-ok}
use vo_e.Cas.Client.{sector_size, LbaIndex, IndexFile, Client, write_to_cas}

pub record CasBackendConfig : Type 0 where
  pub cas_server_addr : Bytes
  pub device_size_bytes : ℕ
  pub device_model : Bytes
  pub device_serial : Bytes
  pub index_path : Bytes

abbrev pub default : CasBackendConfig
default = record {
  cas_server_addr = codes "127.0.0.1:3000";
  device_size_bytes = 100 * 1024 * 1024;
  device_model = codes "CAS Virtual Disk";
  device_serial = codes "CAS001";
  index_path = codes "/var/lib/aoe-cas/index.json";
}

-- `LbaIndex::new`
abbrev pub new_index : Bytes → LbaIndex
new_index zero_block_hash = record { mappings = []; zero_block_hash = zero_block_hash }

-- The file at the index's path: whether it exists, its opening and its parse.
pub record IndexSource (F : Type 0) : Type 0 where
  pub exists : F → Bool
  pub open_index : F → Outcome ErrorKind (Unit {0})
  pub from_reader : F → Outcome ErrorKind LbaIndex

abbrev pub device_info : CasBackendConfig → DeviceInfo
device_info config = record {
  model = config.device_model;
  serial = config.device_serial;
  firmware = codes "1.0";
  total_sectors = config.device_size_bytes / sector_size;
  sector_size = sector_size;
  lba48 = true;
}

module _ {R W F : Type 0} (reader : Reader R) (writer : Writer W) (file : IndexFile F)
    (describe : ErrorKind → Bytes) (source : IndexSource F) where
  abbrev pub open_failed : Bytes → ErrorKind → StorageError
  open_failed text e = StorageError.backend (text ++ describe e)

  unfoldable pub load : F → Outcome StorageError LbaIndex
  load files = do
    opened ← map_err (open_failed (codes "failed to open index: ")) (source.open_index files)
    map_err (open_failed (codes "failed to parse index: ")) (source.from_reader files)

  -- The index that a new backend finds, or makes with the hash of a sector of zeros.
  unfoldable pub with_index : Client R W F → Outcome StorageError (Client R W F)
  unfolding load write_to_cas
  with_index c =
      let (stored, after) = write_to_cas reader writer file describe (replicate sector_size 0) c in
      if source.exists c.files
      then (do index ← load c.files; ok (record c { index = index }))
      else (do zero_hash ← stored; ok (record after { index = new_index zero_hash }))

  -- What a fresh index says.
  abbrev pub Fresh : LbaIndex → Type 0
  Fresh index = (index.mappings ≡ []) × (length index.zero_block_hash ≡ 32)

  with_index-Fresh :
      (start c : Client R W F)
      → source.exists start.files ≡ false
      → with_index start ≡ ok c
      → Fresh c.index
  unfolding with_index
  with_index-Fresh start c missing h =
      let put = write_to_cas reader writer file describe (replicate sector_size 0) start in
      let made : Bytes → Client R W F = λ zero_hash. record put.1 { index = new_index zero_hash } in
      let h1 : ◌≡◌ {A = Outcome StorageError (Client R W F)}
          (do zero_hash ← put.0; ok (made zero_hash)) (ok c) =
        rw missing at h in
      let (zero_hash, stored, h2) = >>=-eq-ok put.0 (λ zero_hash. ok (made zero_hash)) h1 in
      let (wide, _) =
        put_cas-ok reader writer file describe (replicate sector_size 0) start zero_hash stored in
      subst (λ (x : Client R W F). Fresh x.index) (ok_inj h2) (refl, wide)

  module _ (connect : Bytes → Outcome ErrorKind W) (try_clone : W → Outcome ErrorKind R) where
    unfoldable pub new : CasBackendConfig → F → Outcome StorageError (Client R W F)
    unfolding with_index
    new config files = do
      stream ←
          map_err (open_failed (codes "failed to connect to CAS server: "))
            (connect config.cas_server_addr)
      cloned ← map_err (open_failed (codes "failed to clone stream: ")) (try_clone stream)
      with_index (record {
        reader = cloned;
        writer = stream;
        index = new_index (replicate 32 0);
        files = files;
        info = device_info config;
      })

    -- A client opened where there was no file of an index, if that returned, maps no sector, and its
    -- hash for sectors that are not mapped has 32 bytes.
    pub new-Fresh :
        (config : CasBackendConfig) (files : F) (c : Client R W F)
        → source.exists files ≡ false
        → new config files ≡ ok c
        → Fresh c.index
    unfolding new
    new-Fresh config files c missing h =
        let (stream, connected, h1) = >>=-eq-ok (map_err _ (connect config.cas_server_addr)) _ h in
        let (cloned, copied, h2) = >>=-eq-ok (map_err _ (try_clone stream)) _ h1 in
        with_index-Fresh _ c missing h2
