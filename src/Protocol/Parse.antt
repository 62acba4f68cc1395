-- ===== src/Protocol/Parse.antt =====
-- src/protocol/parse.rs: raw Ethernet frames into AoE frames.
use vo_e.Common.{
  ℕ, ◌+◌, Bytes, if◌then◌else◌, ltb, ◌==◌, not, shl, shr, bit_and, bit_or, [], length, get_or, take,
  drop, from_be16, from_be32, Outcome, ok, err, ◌>>=◌, map_err,
}
use vo_e.Protocol.Types.{
  Mac, aoe_ethertype, AoeCommand, ata, config, aoe_command, aoe_flags_from_byte, aoe_header_size,
  ata_header_size, ata_flags_from_byte, config_header_min_size, AoePayload, ata_payload,
  config_payload, AoeFrame,
}

pub data ParseError : Type 0 where
  too_short : ℕ → ℕ → ParseError
  invalid_ethertype : ℕ → ParseError
  unsupported_version : ℕ → ParseError
  unknown_command : ℕ → ParseError
  invalid_ata_header invalid_config_header : ParseError

-- `data[i]`; the length is tested before
abbrev pub byte_at : Bytes → ℕ → ℕ
byte_at data' i = get_or data' i 0

abbrev pub mac_at : Bytes → ℕ → Mac
mac_at data' i = record {
  m0 = byte_at data' i;
  m1 = byte_at data' (i + 1);
  m2 = byte_at data' (i + 2);
  m3 = byte_at data' (i + 3);
  m4 = byte_at data' (i + 4);
  m5 = byte_at data' (i + 5);
}

-- The 48-bit LBA, least significant byte first.
unfoldable pub join_lba : ℕ → ℕ → ℕ → ℕ → ℕ → ℕ → ℕ
join_lba b0 b1 b2 b3 b4 b5 =
    bit_or (bit_or (bit_or (bit_or (bit_or b0 (shl b1 8)) (shl b2 16)) (shl b3 24)) (shl b4 32))
      (shl b5 40)

unfoldable pub parse_ata_payload : Bytes → Outcome ParseError AoePayload
parse_ata_payload data' =
    if ltb (length data') ata_header_size
    then err (too_short (aoe_header_size + ata_header_size) (aoe_header_size + length data'))
    else ok (
        ata_payload
          (record {
            flags = ata_flags_from_byte (byte_at data' 0);
            err_feature = byte_at data' 1;
            sector_count = byte_at data' 2;
            cmd_status = byte_at data' 3;
            lba =
                join_lba (byte_at data' 4) (byte_at data' 5) (byte_at data' 6) (byte_at data' 7)
                  (byte_at data' 8) (byte_at data' 9);
          })
          (drop ata_header_size data'))

unfoldable pub parse_config_payload : Bytes → Outcome ParseError AoePayload
parse_config_payload data' =
    let config_len = from_be16 (byte_at data' 6) (byte_at data' 7) in
    let with_string = λ (config_string : Bytes). config_payload (record {
      buffer_count = from_be16 (byte_at data' 0) (byte_at data' 1);
      firmware_version = from_be16 (byte_at data' 2) (byte_at data' 3);
      sector_count = byte_at data' 4;
      aoe_ccmd = byte_at data' 5;
      config_len = config_len;
      config_string = config_string;
    }) in
    if ltb (length data') config_header_min_size
    then err (too_short (aoe_header_size + config_header_min_size) (aoe_header_size + length data'))
    else if ltb 0 config_len
    then (if ltb (length data') (config_header_min_size + config_len)
        then err invalid_config_header
        else ok (with_string (take config_len (drop config_header_min_size data'))))
    else ok (with_string [])

unfoldable pub parse_payload : AoeCommand → Bytes → Outcome ParseError AoePayload
unfolding parse_ata_payload parse_config_payload
parse_payload ata data' = parse_ata_payload data'
parse_payload config data' = parse_config_payload data'

unfoldable pub parse_frame : Bytes → Outcome ParseError AoeFrame
unfolding parse_payload
parse_frame data' =
    let ethertype = from_be16 (byte_at data' 12) (byte_at data' 13) in
    let ver_flags = byte_at data' 14 in
    let version = shr ver_flags 4 in
    let command_byte = byte_at data' 19 in
    let parse_rest : Outcome ParseError AoeFrame = do
      command ← map_err (λ _. unknown_command command_byte) (aoe_command command_byte)
      payload ← parse_payload command (drop aoe_header_size data')
      ok (record {
        header = record {
          dst_mac = mac_at data' 0;
          src_mac = mac_at data' 6;
          version = version;
          flags = aoe_flags_from_byte (bit_and ver_flags 0x0f);
          error = byte_at data' 15;
          shelf = from_be16 (byte_at data' 16) (byte_at data' 17);
          slot = byte_at data' 18;
          command = command;
          tag =
              from_be32 (byte_at data' 20) (byte_at data' 21) (byte_at data' 22) (byte_at data' 23);
        };
        payload = payload;
      })
    in if ltb (length data') aoe_header_size
      then err (too_short aoe_header_size (length data'))
      else if not (ethertype == aoe_ethertype)
      then err (invalid_ethertype ethertype)
      else if ltb 1 version
      then err (unsupported_version version)
      else parse_rest
