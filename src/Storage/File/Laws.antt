-- ===== src/Storage/File/Laws.antt =====
-- `FileBackend` is a device, on a file that is at least as long.
use vo_e.Common.{
  ℕ, ◌+◌, ◌*◌, ◌/◌, ◌%◌, ◌^◌, ◌≤◌, ◌<◌, ◌≡◌, refl, sym, ap, ◌∙◌, subst, arith, Bytes, length, ◌⊎◌,
  inl, inr, ok, ErrorKind, Outcome-cases, map_err-eq-ok,
}
use vo_e.Common.Io.{Io, ◌>>=◌, >>=-eq-ok}
use vo_e.Storage.{StorageError, io, DeviceInfo}
use vo_e.Storage.Laws.{slice, put_at, StorageLaws, validate_range-in_range}
use vo_e.Storage.File.{FileHandle, FileBackend, on_file, read, write, flush, file_backend}

-- What the documentation of `std::fs::File` says: a file has contents and a position, reads and
-- writes are at the position, and no write shortens the file.
pub record FileLaws {F : Type 0} (handle : FileHandle F) : Type 0 where
  pub content : F → Bytes
  pub position : F → ℕ
  pub seek_keeps : (n : ℕ) (f : F) → content (handle.seek n f).1 ≡ content f
  pub seek_ok : (n : ℕ) (f : F) → (handle.seek n f).0 ≡ ok tt → position (handle.seek n f).1 ≡ n
  pub read_exact_keeps : (n : ℕ) (f : F) → content (handle.read_exact n f).1 ≡ content f
  pub read_exact_ok :
      (n : ℕ) (f : F) (d : Bytes)
      → (handle.read_exact n f).0 ≡ ok d
      → d ≡ slice (position f) n (content f)
  pub write_all_ok :
      (d : Bytes) (f : F)
      → position f + length d ≤ length (content f)
      → (handle.write_all d f).0 ≡ ok tt
      → content (handle.write_all d f).1 ≡ put_at (position f) d (content f)
  pub write_all_length :
      (d : Bytes) (f : F) → length (content f) ≤ length (content (handle.write_all d f).1)
  pub sync_all_keeps : (f : F) → content (handle.sync_all f).1 ≡ content f

module _ {F : Type 0} (handle : FileHandle F) (laws : FileLaws handle) where
  -- The file holds all of the device's sectors, whose bytes a `u64` counts.
  abbrev pub IsReady : FileBackend F → Type 0
  IsReady b =
      (b.info.sector_size ≡ 512)
      × (b.info.total_sectors < 2 ^ 55)
      × (b.info.total_sectors * 512 ≤ length (laws.content b.file))

  abbrev contents_of : FileBackend F → Bytes
  contents_of b = laws.content b.file

  -- A call of the file at a position.
  abbrev seek_then : {A : Type 0} → ℕ → Io F ErrorKind A → Io (FileBackend F) StorageError A
  seek_then n m = on_file handle (handle.seek n) >>= λ _. on_file handle m

  seek_then-ok :
      {A : Type 0} (n : ℕ) (m : Io F ErrorKind A) (b : FileBackend F) {a : A}
      → (seek_then n m b).0 ≡ ok a
      → ((handle.seek n b.file).0 ≡ ok tt)
        × ((m (handle.seek n b.file).1).0 ≡ ok a)
        × ((seek_then n m b).1 ≡ record { file = (m (handle.seek n b.file).1).1; info = b.info })
  unfolding on_file
  seek_then-ok n m b {a} h =
      let (x, sought, called) =
        >>=-eq-ok (on_file handle (handle.seek n)) (λ _. on_file handle m) b h in
      let e : (handle.seek n b.file).0 ≡ ok tt = map_err-eq-ok io (handle.seek n b.file).0 sought in
      (e, map_err-eq-ok io (m (handle.seek n b.file).1).0 called, rw e refl)

  seek_then-state :
      {A : Type 0} (n : ℕ) (m : Io F ErrorKind A) (b : FileBackend F)
      → ((seek_then n m b).1 ≡ record { file = (handle.seek n b.file).1; info = b.info })
        ⊎ ((seek_then n m b).1 ≡ record { file = (m (handle.seek n b.file).1).1; info = b.info })
  unfolding on_file
  seek_then-state n m b = elim (Outcome-cases (handle.seek n b.file).0) [
    | inl (_, e) ↦ inr (rw e refl)
    | inr (k, e) ↦ inl (rw e refl)
  ]

  module _ (b : FileBackend F) (lba count : ℕ) (ready : IsReady b)
      (fits : lba + count ≤ b.info.total_sectors) where
    offset : lba * b.info.sector_size % 2 ^ 64 ≡ lba * 512
    offset =
        let (size, few, whole) = ready in
        rw size (let small : lba * 512 % 2 ^ 64 ≡ lba * 512 = omega (arith, few, fits) in small)

    read-eq : read handle lba count b ≡ seek_then (lba * 512) (handle.read_exact (count * 512)) b
    unfolding read
    read-eq =
        let (size, few, whole) = ready in
        rw (validate_range-in_range b.info lba count fits (omega (arith, few)), offset, size) refl

    write-eq :
        (d : Bytes)
        → length d ≡ count * 512
        → count ≤ 256
        → write handle lba d b ≡ seek_then (lba * 512) (handle.write_all d) b
    unfolding write
    write-eq d l h =
        let (size, few, whole) = ready in
        let sectors : length d / b.info.sector_size % 2 ^ 8 ≤ count =
          rw size
            (let few_sectors : length d / 512 % 2 ^ 8 ≤ count = omega (arith, l) in few_sectors) in
        rw
          (
            validate_range-in_range b.info lba (length d / b.info.sector_size % 2 ^ 8)
                (omega (arith, sectors, fits)) (omega (arith, few)),
            offset,
          )
          refl

    pub read-ok :
        (d : Bytes)
        → (read handle lba count b).0 ≡ ok d
        → d ≡ slice (lba * 512) (count * 512) (contents_of b)
    read-ok d h =
        let m = handle.read_exact (count * 512) in
        let (sought, got, _) = seek_then-ok (lba * 512) m b (sym (ap (λ r. r.0) read-eq) ∙ h) in
        let f = (handle.seek (lba * 512) b.file).1 in
        laws.read_exact_ok (count * 512) f d got
        ∙ ap (λ p. slice p (count * 512) (laws.content f)) (laws.seek_ok (lba * 512) b.file sought)
        ∙ ap (slice (lba * 512) (count * 512)) (laws.seek_keeps (lba * 512) b.file)

    module _ (d : Bytes) (l : length d ≡ count * 512) (few : count ≤ 256) where
      pub write-ok :
          (write handle lba d b).0 ≡ ok tt
          → contents_of (write handle lba d b).1 ≡ put_at (lba * 512) d (contents_of b)
      write-ok h =
          let m = handle.write_all d in
          let (sought, done, after) =
            seek_then-ok (lba * 512) m b (sym (ap (λ r. r.0) (write-eq d l few)) ∙ h) in
          let f = (handle.seek (lba * 512) b.file).1 in
          let same = laws.seek_keeps (lba * 512) b.file in
          let here = laws.seek_ok (lba * 512) b.file sought in
          let inside : laws.position f + length d ≤ length (laws.content f) =
            rw (same, here) (omega (arith, ready.2, fits, l)) in
          ap (λ r. contents_of r.1) (write-eq d l few)
          ∙ ap contents_of after
          ∙ laws.write_all_ok d f inside done
          ∙ ap (λ p. put_at p d (laws.content f)) here
          ∙ ap (put_at (lba * 512) d) same

      pub write-keeps :
          ((write handle lba d b).1.info ≡ b.info)
          × (length (contents_of b) ≤ length (contents_of (write handle lba d b).1))
      write-keeps =
          let same = laws.seek_keeps (lba * 512) b.file in
          let f = (handle.seek (lba * 512) b.file).1 in
          let longer : length (contents_of b) ≤ length (laws.content (handle.write_all d f).1) =
            subst (λ c. length c ≤ length (laws.content (handle.write_all d f).1)) same
              (laws.write_all_length d f) in
          rw (write-eq d l few) (elim (seek_then-state (lba * 512) (handle.write_all d) b) [
            | inl e ↦ rw e (refl, omega (arith, ap length same))
            | inr e ↦ rw e (refl, longer)
          ])

  pub IsReady-keeps :
      (b u : FileBackend F)
      → IsReady b
      → u.info ≡ b.info
      → length (contents_of b) ≤ length (contents_of u)
      → IsReady u
  IsReady-keeps b u (size, few, whole) same longer = (
    ap (λ (i : DeviceInfo). i.sector_size) same ∙ size,
    subst (λ (i : DeviceInfo). i.total_sectors < 2 ^ 55) (sym same) few,
    subst (λ (i : DeviceInfo). i.total_sectors * 512 ≤ length (contents_of u)) (sym same)
        (omega (arith, whole, longer)),
  )

  pub read-keeps :
      (b : FileBackend F) (lba count : ℕ)
      → IsReady b
      → lba + count ≤ b.info.total_sectors
      → (contents_of (read handle lba count b).1 ≡ contents_of b)
        × ((read handle lba count b).1.info ≡ b.info)
  read-keeps b lba count ready fits =
      let m = handle.read_exact (count * 512) in
      let same = laws.seek_keeps (lba * 512) b.file in
      rw (read-eq b lba count ready fits) (elim (seek_then-state (lba * 512) m b) [
        | inl e ↦ rw e (same, refl)
        | inr e ↦
            rw e
              (laws.read_exact_keeps (count * 512) (handle.seek (lba * 512) b.file).1 ∙ same, refl)
      ])

  pub flush-keeps :
      (b : FileBackend F)
      → (contents_of (flush handle b).1 ≡ contents_of b) × ((flush handle b).1.info ≡ b.info)
  unfolding flush on_file
  flush-keeps b = (laws.sync_all_keeps b.file, refl)

  -- On a file that holds all its sectors: after a write in range that returned, a read of any
  -- sectors in range that returns gives the earlier bytes with those written put in their place,
  -- and the file still holds all sectors.
  pub write-read :
      (b : FileBackend F) (lba count : ℕ) (d : Bytes)
      → IsReady b
      → lba + count ≤ b.info.total_sectors
      → count ≤ 256
      → length d ≡ count * 512
      → (write handle lba d b).0 ≡ ok tt
      → let b' = (write handle lba d b).1 in
        IsReady b'
        × ((from_lba n : ℕ) (e : Bytes)
            → from_lba + n ≤ b.info.total_sectors
            → (read handle from_lba n b').0 ≡ ok e
            → e ≡ slice (from_lba * 512) (n * 512) (put_at (lba * 512) d (contents_of b)))
  write-read b lba count d ready fits few l done =
      let b' = (write handle lba d b).1 in
      let (kept, longer) = write-keeps b lba count ready fits d l few in
      let ready' = IsReady-keeps b b' ready kept longer in
      (
        ready',
        λ from_lba n e in_range got.
            let in_range' : from_lba + n ≤ b'.info.total_sectors =
              subst (λ (i : DeviceInfo). from_lba + n ≤ i.total_sectors) (sym kept) in_range in
            read-ok b' from_lba n ready' in_range' e got
            ∙ ap (slice (from_lba * 512) (n * 512)) (write-ok b lba count ready fits d l few done),
      )

  -- `FileBackend` fills the interface.
  unfoldable pub file_backend_laws : StorageLaws (file_backend handle)
  file_backend_laws = record {
    IsReady = IsReady;
    disk = contents_of;
    Accepts = λ lba d b. Unit {0};
    read_ok = λ lba count b d ready fits h. read-ok b lba count ready fits d h;
    read_keeps = λ lba count b ready fits.
        let (same, kept) = read-keeps b lba count ready fits in
        (IsReady-keeps b _ ready kept (omega (arith, ap length same)), same, kept);
    write_ok = λ lba count d b ready fits few l _ h. write-ok b lba count ready fits d l few h;
    write_ready = λ lba count d b ready fits few l _.
        let (kept, longer) = write-keeps b lba count ready fits d l few in
        (IsReady-keeps b _ ready kept longer, kept);
    flush_keeps = λ b ready.
        let (same, kept) = flush-keeps b in
        (IsReady-keeps b _ ready kept (omega (arith, ap length same)), same, kept);
    disk_size = λ b ready. ready.2;
  }
