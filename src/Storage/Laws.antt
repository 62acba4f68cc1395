-- ===== src/Storage/Laws.antt =====
-- What a user of `BlockStorage` relies on: a device is a row of bytes.
use vo_e.Common.{
  ℕ, ◌+◌, ◌*◌, ◌%◌, ◌^◌, ◌≤◌, ◌<◌, ◌≡◌, refl, ap, ◌∙◌, arith, Bytes, length, take, drop,
  take-append, drop-append, length-take, ◌++◌, ok, ltb_of_le,
}
use vo_e.Storage.{BlockStorage, DeviceInfo, validate_range}

-- `data[i..i + n]`
abbrev pub slice : ℕ → ℕ → Bytes → Bytes
slice i n data' = take n (drop i data')

-- `data[i..i + bytes.len()]` overwritten
abbrev pub put_at : ℕ → Bytes → Bytes → Bytes
put_at i bytes data' = take i data' ++ (bytes ++ drop (i + length bytes) data')

-- `disk` is the device's contents while `IsReady`. A read or a write within the device that
-- returns did what its documentation says; no call changes the size. What a write that fails
-- leaves on the sectors is not promised.
pub record StorageLaws {S : Type 0} (storage : BlockStorage S) : Type 1 where
  pub IsReady : S → Type 0
  pub disk : S → Bytes
  -- What a write needs beyond its range, of the place, the data and the state.
  pub Accepts : ℕ → Bytes → S → Type 0
  pub read_ok :
      (lba count : ℕ) (s : S) (d : Bytes)
      → IsReady s
      → lba + count ≤ (storage.info s).total_sectors
      → (storage.read lba count s).0 ≡ ok d
      → d ≡ slice (lba * 512) (count * 512) (disk s)
  pub read_keeps :
      (lba count : ℕ) (s : S)
      → IsReady s
      → lba + count ≤ (storage.info s).total_sectors
      → IsReady (storage.read lba count s).1
        × (disk (storage.read lba count s).1 ≡ disk s)
        × (storage.info (storage.read lba count s).1 ≡ storage.info s)
  pub write_ok :
      (lba count : ℕ) (contents : Bytes) (s : S)
      → IsReady s
      → lba + count ≤ (storage.info s).total_sectors
      → count ≤ 256
      → length contents ≡ count * 512
      → Accepts lba contents s
      → (storage.write lba contents s).0 ≡ ok tt
      → disk (storage.write lba contents s).1 ≡ put_at (lba * 512) contents (disk s)
  pub write_ready :
      (lba count : ℕ) (contents : Bytes) (s : S)
      → IsReady s
      → lba + count ≤ (storage.info s).total_sectors
      → count ≤ 256
      → length contents ≡ count * 512
      → Accepts lba contents s
      → IsReady (storage.write lba contents s).1
        × (storage.info (storage.write lba contents s).1 ≡ storage.info s)
  pub flush_keeps :
      (s : S)
      → IsReady s
      → IsReady (storage.flush s).1
        × (disk (storage.flush s).1 ≡ disk s)
        × (storage.info (storage.flush s).1 ≡ storage.info s)
  pub disk_size : (s : S) → IsReady s → (storage.info s).total_sectors * 512 ≤ length (disk s)

-- A range within the device is in range.
pub validate_range-in_range :
    (info : DeviceInfo) (lba count : ℕ)
    → lba + count ≤ info.total_sectors
    → info.total_sectors < 2 ^ 64
    → validate_range info lba count ≡ ok tt
unfolding validate_range
validate_range-in_range info lba count h k =
    let small : (lba + count) % 2 ^ 64 ≡ lba + count = omega arith in
    rw (small, ltb_of_le info.total_sectors (lba + count) h)

-- What was put at a place within the data is there.
pub slice-put_at :
    (i : ℕ) (bytes data' : Bytes)
    → i + length bytes ≤ length data'
    → slice i (length bytes) (put_at i bytes data') ≡ bytes
slice-put_at i bytes data' h =
    ap (take (length bytes)) (
      drop-append i (take i data') (bytes ++ drop (i + length bytes) data')
        (omega (arith, length-take i data')))
    ∙ take-append (length bytes) bytes (drop (i + length bytes) data') refl
