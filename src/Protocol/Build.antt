-- ===== src/Protocol/Build.antt =====
-- src/protocol/build.rs: response frames.
use vo_e.Common.{
  ℕ, ◌%◌, ◌^◌, Bytes, Bool, true, false, shr, bit_and, bit_or, Option, none, some, [], ◌∷◌, ◌++◌,
  length, be16, be32,
}
use vo_e.Protocol.Types.{
  mac_bytes, aoe_ethertype, AoeCommand, ata, config, aoe_command_code, AoeFlags, aoe_flags_to_byte,
  AtaFlags, ata_flags_to_byte, default_ata_flags, AoePayload, ata_payload, config_payload, AoeFrame,
  error_abrt, status_err, status_drdy,
}

-- src/protocol/ata.rs
pub record AtaResponse : Type 0 where
  pub status : ℕ
  pub error : ℕ
  pub sector_count : ℕ
  pub contents : Option Bytes

pub record ConfigResponse : Type 0 where
  pub buffer_count : ℕ
  pub firmware_version : ℕ
  pub sector_count : ℕ
  pub config_string : Bytes

pub data ResponseData : Type 0 where
  ata_response : AtaResponse → ResponseData
  config_response : ConfigResponse → ResponseData
  error_response : ℕ → ResponseData

abbrev pub request_ata_flags : AoePayload → AtaFlags
request_ata_flags (ata_payload header _) = header.flags
request_ata_flags (config_payload _) = default_ata_flags

abbrev pub request_lba : AoePayload → ℕ
request_lba (ata_payload header _) = header.lba
request_lba (config_payload _) = 0

-- The Ethernet header with the addresses swapped, and the AoE header.
unfoldable pub build_header : AoeFrame → Bool → ℕ → ℕ → ℕ → AoeCommand → Bytes
build_header request failed code target_shelf target_slot command =
    let header = request.header in
    let flags : AoeFlags = record { response = true; error = failed } in
    mac_bytes header.src_mac
    ++ (mac_bytes header.dst_mac
        ++ (be16 aoe_ethertype
            ++ (aoe_flags_to_byte flags header.version
                ∷ code
                ∷ (be16 target_shelf
                    ++ (target_slot ∷ aoe_command_code command ∷ be32 header.tag)))))

unfoldable pub build_lba : ℕ → Bytes
build_lba lba =
    bit_and lba 0xff
    ∷ bit_and (shr lba 8) 0xff
    ∷ bit_and (shr lba 16) 0xff
    ∷ bit_and (shr lba 24) 0xff
    ∷ bit_and (shr lba 32) 0xff
    ∷ bit_and (shr lba 40) 0xff
    ∷ []

abbrev pub contents_bytes : Option Bytes → Bytes
contents_bytes none = []
contents_bytes (some d) = d

unfoldable pub build_ata_response : AoeFrame → AtaResponse → ℕ → ℕ → Bytes
unfolding build_header build_lba
build_ata_response request response target_shelf target_slot =
    build_header request false 0 target_shelf target_slot ata
    ++ (ata_flags_to_byte (request_ata_flags request.payload)
        ∷ response.error
        ∷ response.sector_count
        ∷ response.status
        ∷ (build_lba (request_lba request.payload) ++ (0 ∷ 0 ∷ contents_bytes response.contents)))

unfoldable pub build_config_response : AoeFrame → ConfigResponse → ℕ → ℕ → Bytes
unfolding build_header
build_config_response request response target_shelf target_slot =
    build_header request false 0 target_shelf target_slot config
    ++ (be16 response.buffer_count
        ++ (be16 response.firmware_version
            ++ (response.sector_count
                ∷ 0x10
                ∷ (be16 (length response.config_string % 2 ^ 16) ++ response.config_string))))

-- The ATA header of an error response, for a request with the ATA command.
unfoldable pub error_trailer : AoeCommand → AoePayload → Bytes
error_trailer config payload = []
error_trailer ata payload =
    ata_flags_to_byte (request_ata_flags payload)
    ∷ error_abrt
    ∷ 0
    ∷ bit_or status_err status_drdy
    ∷ (build_lba (request_lba payload) ++ (0 ∷ 0 ∷ []))

unfoldable pub build_error_response : AoeFrame → ℕ → ℕ → ℕ → Bytes
unfolding build_header build_lba error_trailer
build_error_response request error_code target_shelf target_slot =
    build_header request true error_code target_shelf target_slot request.header.command
    ++ error_trailer request.header.command request.payload

unfoldable pub build_response : AoeFrame → ResponseData → ℕ → ℕ → Bytes
unfolding build_ata_response build_config_response build_error_response
build_response request (ata_response r) target_shelf target_slot =
    build_ata_response request r target_shelf target_slot
build_response request (config_response r) target_shelf target_slot =
    build_config_response request r target_shelf target_slot
build_response request (error_response code) target_shelf target_slot =
    build_error_response request code target_shelf target_slot
