-- ===== src/Ata/Identify.antt =====
-- src/protocol/ata.rs: the data of IDENTIFY DEVICE.
use vo_e.Common.{
  ℕ, zero, suc, ◌-◌, ◌%◌, ◌^◌, min, Bytes, if◌then◌else◌, ◌==◌, shr, bit_and, [], ◌∷◌, ◌++◌, length,
  take, replicate,
}
use vo_e.Storage.{DeviceInfo}
use vo_e.Storage.Laws.{put_at}

-- `format!("{:n$}", &s[..s.len().min(n)])`, of a string whose first `n` bytes end at a character
abbrev pub padded : ℕ → Bytes → Bytes
padded n s = let cut = take n s in cut ++ replicate (n - length cut) 0x20

-- What `copy_ata_string` leaves in a slice of `words` words.
unfoldable pub copy_ata_string : ℕ → Bytes → Bytes
copy_ata_string zero src = []
copy_ata_string (suc words) [] = 0x20 ∷ 0x20 ∷ copy_ata_string words []
copy_ata_string (suc words) (a ∷ []) = 0x20 ∷ a ∷ copy_ata_string words []
copy_ata_string (suc words) (a ∷ b ∷ rest) = b ∷ a ∷ copy_ata_string words rest

-- Byte `k` of a little-endian number.
abbrev pub byte_of : ℕ → ℕ → ℕ
byte_of n k = bit_and (shr n k) 0xff

unfoldable pub put_capacity48 : DeviceInfo → Bytes → Bytes
put_capacity48 info data' =
    let sectors = info.total_sectors in
    if info.lba48
    then put_at 200
        (byte_of sectors 0
          ∷ byte_of sectors 8
          ∷ byte_of sectors 16
          ∷ byte_of sectors 24
          ∷ byte_of sectors 32
          ∷ byte_of sectors 40
          ∷ 0
          ∷ 0
          ∷ [])
        data'
    else data'

unfoldable pub put_sector_size : DeviceInfo → Bytes → Bytes
put_sector_size info data' =
    if info.sector_size == 4096 then put_at 212 (0x00 ∷ 0x10 ∷ []) data' else data'

unfoldable pub put_strings : DeviceInfo → Bytes → Bytes
unfolding copy_ata_string
put_strings info data' =
    let with_serial = put_at 20 (copy_ata_string 10 (padded 20 info.serial)) data' in
    let with_firmware = put_at 46 (copy_ata_string 4 (padded 8 info.firmware)) with_serial in
    put_at 54 (copy_ata_string 20 (padded 40 info.model)) with_firmware

-- The fixed words 47, 49, 53, 83 and 86, and the 28-bit capacity in words 60 and 61.
unfoldable pub put_fixed : DeviceInfo → Bytes → Bytes
put_fixed info data' =
    let lba28_sectors = min info.total_sectors 0x0fff_ffff % 2 ^ 32 in
    let word47 = put_at 94 (0x00 ∷ 0x01 ∷ []) data' in
    let word49 = put_at 98 (0x00 ∷ 0x03 ∷ []) word47 in
    let word53 = put_at 106 (0x00 ∷ 0x06 ∷ []) word49 in
    let words60 =
      put_at 120
        (byte_of lba28_sectors 0
          ∷ byte_of lba28_sectors 8
          ∷ byte_of lba28_sectors 16
          ∷ byte_of lba28_sectors 24
          ∷ [])
        word53 in
    let word83 = put_at 166 (0x00 ∷ 0x04 ∷ []) words60 in put_at 172 (0x00 ∷ 0x04 ∷ []) word83

unfoldable pub build_identify_data : DeviceInfo → Bytes
unfolding put_strings put_fixed put_capacity48 put_sector_size
build_identify_data info = put_sector_size info (
    put_capacity48 info
      (put_fixed info (put_strings info (put_at 0 (0x00 ∷ 0x00 ∷ []) (replicate 512 0)))))
