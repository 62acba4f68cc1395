-- ===== src/Storage/File/Open.antt =====
-- src/storage/file.rs: the three ways to open a `FileBackend`. The opening of a file, the serial
-- number (a hash of the path) and the package's version are parameters.
use vo_e.Common.{
  ℕ, ◌/◌, ◌^◌, ◌≤◌, ◌<◌, ◌≡◌, refl, subst, arith, Bytes, Bool, true, false, codes, length,
  Bool-cases, inl, inr, ltb, if◌then◌else◌, not, Outcome, ok, err, map_err, map_err-eq-ok, ◌>>=◌,
  >>=-eq-ok, ErrorKind,
}
use vo_e.Storage.{StorageError, io, DeviceInfo}
use vo_e.Storage.File.{FileHandle, FileBackend}
use vo_e.Storage.File.Laws.{FileLaws, IsReady}

-- `std::fs::OpenOptions`, as far as they are set here.
pub record OpenOptions : Type 0 where
  pub read : Bool
  pub write : Bool
  pub create : Bool

-- What a call left behind where it returned.
abbrev pub outcome_state : {F : Type 0} → Outcome ErrorKind (Unit {0}) × F → Outcome ErrorKind F
outcome_state (ok done, file) = ok file
outcome_state (err e, file) = err e

module _ {F : Type 0} (handle : FileHandle F)
    (open_path : OpenOptions → Bytes → Outcome ErrorKind F) (generate_serial : Bytes → Bytes)
    (version : Bytes) where
  abbrev pub file_info : Bytes → ℕ → DeviceInfo
  file_info path total_sectors = record {
    model = codes "AoE File Backend";
    serial = generate_serial path;
    firmware = version;
    total_sectors = total_sectors;
    sector_size = 512;
    lba48 = true;
  }

  unfoldable pub open_with_options : Bytes → Bool → Outcome StorageError (FileBackend F)
  open_with_options path read_only = do
    file ←
        map_err io (open_path (record { read = true; write = not read_only; create = false }) path)
    file_size ← map_err io (handle.metadata_len file)
    ok (record { file = file; info = file_info path (file_size / 512) })

  abbrev pub open_existing : Bytes → Outcome StorageError (FileBackend F)
  open_existing path = open_with_options path false

  abbrev pub open_read_only : Bytes → Outcome StorageError (FileBackend F)
  open_read_only path = open_with_options path true

  -- The file, made longer if it is shorter than `size_bytes`.
  abbrev pub extended : ℕ → ℕ → F → Outcome ErrorKind F
  extended current_size size_bytes file =
      if ltb current_size size_bytes
      then outcome_state (handle.set_len size_bytes file)
      else ok file

  unfoldable pub open_or_create : Bytes → ℕ → Outcome StorageError (FileBackend F)
  open_or_create path size_bytes = do
    file ← map_err io (open_path (record { read = true; write = true; create = true }) path)
    current_size ← map_err io (handle.metadata_len file)
    whole ← map_err io (extended current_size size_bytes file)
    ok (record { file = whole; info = file_info path (size_bytes / 512) })

-- What the documentation of `std::fs::File` says of a file's length.
pub record LengthLaws {F : Type 0} (handle : FileHandle F) (laws : FileLaws handle) : Type 0 where
  pub metadata_len_ok :
      (f : F) (n : ℕ) → handle.metadata_len f ≡ ok n → (n ≡ length (laws.content f)) × (n < 2 ^ 64)
  pub set_len_ok :
      (n : ℕ) (f : F)
      → (handle.set_len n f).0 ≡ ok tt
      → length (laws.content (handle.set_len n f).1) ≡ n

outcome_state-ok :
    {F : Type 0} (r : Outcome ErrorKind (Unit {0}) × F) {f : F}
    → outcome_state r ≡ ok f
    → (r.0 ≡ ok tt) × (r.1 ≡ f)
outcome_state-ok (ok tt, file) h = (refl, cc)
outcome_state-ok (err e, file) h = absurd cc

module _ {F : Type 0} (handle : FileHandle F) (laws : FileLaws handle)
    (lengths : LengthLaws handle laws) (open_path : OpenOptions → Bytes → Outcome ErrorKind F)
    (generate_serial : Bytes → Bytes) (version : Bytes) where
  extended-length :
      (current_size size_bytes : ℕ) (f u : F)
      → handle.metadata_len f ≡ ok current_size
      → extended handle open_path generate_serial version current_size size_bytes f ≡ ok u
      → size_bytes ≤ length (laws.content u)
  extended-length current_size size_bytes f u known h =
      let (len, _) = lengths.metadata_len_ok f current_size known in
      elim (Bool-cases (ltb current_size size_bytes)) [
        | inl short ↦
            let (done, same) = outcome_state-ok (handle.set_len size_bytes f) (rw short at h) in
            let l = lengths.set_len_ok size_bytes f done in
            subst (λ x. size_bytes ≤ length (laws.content x)) same (omega (arith, l))
        | inr long ↦
            let same : f ≡ u =
              let e : ◌≡◌ {A = Outcome ErrorKind F} (ok f) (ok u) = rw long at h in cc in
            subst (λ x. size_bytes ≤ length (laws.content x)) same (ground (arith, long, len))
      ]

  -- A file opened or made for a size that fits 64 bits, where that returned: the file holds all
  -- sectors of the device, which has as many whole ones as the size.
  pub open_or_create-IsReady :
      (path : Bytes) (size_bytes : ℕ) (b : FileBackend F)
      → size_bytes < 2 ^ 64
      → open_or_create handle open_path generate_serial version path size_bytes ≡ ok b
      → IsReady handle laws b × (b.info.total_sectors ≡ size_bytes / 512)
  unfolding open_or_create
  open_or_create-IsReady path size_bytes b few h =
      let (f, opened, h1) = >>=-eq-ok (map_err io (open_path _ path)) _ h in
      let (n, known, h2) = >>=-eq-ok (map_err io (handle.metadata_len f)) _ h1 in
      let (u, longer, h3) =
        >>=-eq-ok (map_err io (extended handle open_path generate_serial version n size_bytes f)) _
          h2 in
      let enough =
        extended-length n size_bytes f u (map_err-eq-ok io (handle.metadata_len f) known) (
          map_err-eq-ok io (extended handle open_path generate_serial version n size_bytes f)
            longer) in
      let made : FileBackend F = record {
        file = u;
        info = file_info handle open_path generate_serial version path (size_bytes / 512);
      } in
      let same : made ≡ b = cc in
      subst
        (λ (x : FileBackend F). IsReady handle laws x × (x.info.total_sectors ≡ size_bytes / 512))
        same ((refl, omega (arith, few), omega (arith, enough)), refl)

  -- A file opened as it is, for reading only or not, where that returned: the file holds all sectors
  -- of the device.
  pub open_with_options-IsReady :
      (path : Bytes) (read_only : Bool) (b : FileBackend F)
      → open_with_options handle open_path generate_serial version path read_only ≡ ok b
      → IsReady handle laws b
  unfolding open_with_options
  open_with_options-IsReady path read_only b h =
      let (f, opened, h1) = >>=-eq-ok (map_err io (open_path _ path)) _ h in
      let (n, known, h2) = >>=-eq-ok (map_err io (handle.metadata_len f)) _ h1 in
      let (len, few) =
        lengths.metadata_len_ok f n (map_err-eq-ok io (handle.metadata_len f) known) in
      let made : FileBackend F = record {
        file = f;
        info = file_info handle open_path generate_serial version path (n / 512);
      } in
      let same : made ≡ b = cc in
      subst (λ (x : FileBackend F). IsReady handle laws x) same
        (refl, omega (arith, few), omega (arith, len))
