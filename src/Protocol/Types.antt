-- ===== src/Protocol/Types.antt =====
-- src/protocol/types.rs: the parts of AoE frames. A `u8`, `u16`, `u32` or `u64` is a number; its
-- range is a hypothesis where a theorem needs it.
use vo_e.Common.{
  ℕ, ◌%◌, ◌^◌, Bytes, Bool, false, not, ◌&&◌, ◌||◌, if◌then◌else◌, ◌==◌, shl, bit_and, bit_or,
  Outcome, ok, err, [], ◌∷◌,
}

abbrev pub aoe_ethertype : ℕ
aoe_ethertype = 0x88a2

abbrev pub broadcast_shelf : ℕ
broadcast_shelf = 0xffff

abbrev pub broadcast_slot : ℕ
broadcast_slot = 0xff

-- `[u8; 6]`
pub record Mac : Type 0 where
  pub m0 : ℕ
  pub m1 : ℕ
  pub m2 : ℕ
  pub m3 : ℕ
  pub m4 : ℕ
  pub m5 : ℕ

abbrev pub mac_bytes : Mac → Bytes
mac_bytes m = m.m0 ∷ m.m1 ∷ m.m2 ∷ m.m3 ∷ m.m4 ∷ m.m5 ∷ []

pub data AoeCommand : Type 0 where
  ata config : AoeCommand

-- `TryFrom<u8>` and `as u8`
unfoldable pub aoe_command : ℕ → Outcome ℕ AoeCommand
aoe_command value = if value == 0 then ok ata else if value == 1 then ok config else err value

unfoldable pub aoe_command_code : AoeCommand → ℕ
aoe_command_code ata = 0
aoe_command_code config = 1

pub record AoeFlags : Type 0 where
  pub response : Bool
  pub error : Bool

-- `(byte & mask) != 0`
abbrev pub has_bit : ℕ → ℕ → Bool
has_bit byte mask = not (bit_and byte mask == 0)

-- `if test { flags |= mask; }`
abbrev pub with_bit : Bool → ℕ → ℕ → ℕ
with_bit test mask flags = if test then bit_or flags mask else flags

unfoldable pub aoe_flags_from_byte : ℕ → AoeFlags
aoe_flags_from_byte flags_nibble = record {
  response = has_bit flags_nibble 0x08;
  error = has_bit flags_nibble 0x04;
}

unfoldable pub aoe_flags_to_byte : AoeFlags → ℕ → ℕ
aoe_flags_to_byte flags version =
    let flags_nibble = with_bit flags.error 0x04 (with_bit flags.response 0x08 0) in
    bit_or (shl version 4 % 2 ^ 8) (bit_and flags_nibble 0x0f)

pub record AoeHeader : Type 0 where
  pub dst_mac : Mac
  pub src_mac : Mac
  pub version : ℕ
  pub flags : AoeFlags
  pub error : ℕ
  pub shelf : ℕ
  pub slot : ℕ
  pub command : AoeCommand
  pub tag : ℕ

-- `AoeHeader::SIZE`
abbrev pub aoe_header_size : ℕ
aoe_header_size = 24

unfoldable pub addresses_target : AoeHeader → ℕ → ℕ → Bool
addresses_target header shelf slot =
    let shelf_match = header.shelf == shelf || header.shelf == broadcast_shelf in
    let slot_match = header.slot == slot || header.slot == broadcast_slot in
    shelf_match && slot_match

pub record AtaFlags : Type 0 where
  pub extended : Bool
  pub device : Bool
  pub async_write : Bool
  pub write : Bool

unfoldable pub ata_flags_from_byte : ℕ → AtaFlags
ata_flags_from_byte byte = record {
  extended = has_bit byte 0x40;
  device = has_bit byte 0x20;
  async_write = has_bit byte 0x02;
  write = has_bit byte 0x01;
}

unfoldable pub ata_flags_to_byte : AtaFlags → ℕ
ata_flags_to_byte flags =
    with_bit flags.write 0x01 (
      with_bit flags.async_write 0x02 (with_bit flags.device 0x20 (with_bit flags.extended 0x40 0)))

-- `AtaFlags::default()`
abbrev pub default_ata_flags : AtaFlags
default_ata_flags = record { extended = false; device = false; async_write = false; write = false }

pub data AtaCommand : Type 0 where
  read_sectors read_sectors_ext write_sectors write_sectors_ext : AtaCommand
  identify_device flush_cache flush_cache_ext : AtaCommand

unfoldable pub ata_command : ℕ → Outcome ℕ AtaCommand
ata_command value =
    if value == 0x20
    then ok read_sectors
    else if value == 0x24
    then ok read_sectors_ext
    else if value == 0x30
    then ok write_sectors
    else if value == 0x34
    then ok write_sectors_ext
    else if value == 0xec
    then ok identify_device
    else if value == 0xe7
    then ok flush_cache
    else if value == 0xea
    then ok flush_cache_ext
    else err value

pub record AtaHeader : Type 0 where
  pub flags : AtaFlags
  pub err_feature : ℕ
  pub sector_count : ℕ
  pub cmd_status : ℕ
  pub lba : ℕ

-- `AtaHeader::SIZE`
abbrev pub ata_header_size : ℕ
ata_header_size = 12

unfoldable pub lba48 : AtaHeader → ℕ
lba48 header = bit_and header.lba 0x0000_ffff_ffff_ffff

unfoldable pub lba28 : AtaHeader → ℕ
lba28 header = bit_and header.lba 0x0fff_ffff % 2 ^ 32

pub data ConfigCommand : Type 0 where
  read test_exact test_prefix set force_set : ConfigCommand

unfoldable pub config_command_from : ℕ → Outcome ℕ ConfigCommand
config_command_from value =
    if value == 0
    then ok read
    else if value == 1
    then ok test_exact
    else if value == 2
    then ok test_prefix
    else if value == 3
    then ok set
    else if value == 4
    then ok force_set
    else err value

pub record ConfigHeader : Type 0 where
  pub buffer_count : ℕ
  pub firmware_version : ℕ
  pub sector_count : ℕ
  pub aoe_ccmd : ℕ
  pub config_len : ℕ
  pub config_string : Bytes

-- `ConfigHeader::MIN_SIZE`
abbrev pub config_header_min_size : ℕ
config_header_min_size = 8

unfoldable pub config_command : ConfigHeader → Outcome ℕ ConfigCommand
unfolding config_command_from
config_command header = config_command_from (bit_and header.aoe_ccmd 0x0f)

pub data AoePayload : Type 0 where
  ata_payload : AtaHeader → Bytes → AoePayload
  config_payload : ConfigHeader → AoePayload

pub record AoeFrame : Type 0 where
  pub header : AoeHeader
  pub payload : AoePayload

-- `ata_status` and `ata_error`
abbrev pub status_err : ℕ
status_err = 0x01

abbrev pub status_drdy : ℕ
status_drdy = 0x40

abbrev pub error_abrt : ℕ
error_abrt = 0x04

abbrev pub error_idnf : ℕ
error_idnf = 0x10

abbrev pub error_unc : ℕ
error_unc = 0x40

abbrev pub max_sectors_standard : ℕ
max_sectors_standard = 2

abbrev pub sector_size : ℕ
sector_size = 512
