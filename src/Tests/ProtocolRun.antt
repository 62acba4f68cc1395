-- ===== src/Tests/ProtocolRun.antt =====
-- Frames built and parsed, at concrete requests.
use vo_e.Common.{
  ℕ, ◌≡◌, refl, arith, Bool, true, false, ◌<◌, some, [], ◌∷◌, replicate, Bytes, IsByte, All, ok,
  ltb, ◌&&◌,
}
use vo_e.Protocol.Types.{
  Mac, AoeHeader, AoeFrame, AtaFlags, AtaHeader, ata_payload, config_payload, ata, config,
  aoe_command, aoe_flags_from_byte, ata_flags_from_byte, AoeCommand, AoePayload,
}
use vo_e.Protocol.Parse.{parse_frame, parse_payload, parse_ata_payload, join_lba}
use vo_e.Protocol.Build.{
  AtaResponse, ConfigResponse, ata_response, config_response, error_response, build_response,
}
use vo_e.Protocol.RoundTrip.{answer_header, parse-build_ata, parse-build_config, parse-build_error}
use vo_e.Protocol.Bounds.{HeaderFits, PayloadFits, parse_frame-HeaderFits}

abbrev host : Mac
host = record { m0 = 2; m1 = 0; m2 = 0; m3 = 0; m4 = 0; m5 = 7 }

abbrev card : Mac
card = record { m0 = 2; m1 = 0; m2 = 0; m3 = 0; m4 = 0; m5 = 9 }

abbrev header_of : AoeCommand → AoeHeader
header_of command = record {
  dst_mac = card;
  src_mac = host;
  version = 1;
  flags = record { response = false; error = false };
  error = 0;
  shelf = 5;
  slot = 2;
  command = command;
  tag = 0x01020304;
}

abbrev pub read_flags : AtaFlags
read_flags = record { extended = true; device = false; async_write = false; write = false }

abbrev pub read_header : ℕ → AtaHeader
read_header lba = record {
  flags = read_flags;
  err_feature = 0;
  sector_count = 1;
  cmd_status = 0x24;
  lba = lba;
}

abbrev pub read_request : AoeFrame
read_request = record { header = header_of ata; payload = ata_payload (read_header 300) [] }

abbrev pub config_request : AoePayload → AoeFrame
config_request p = record { header = header_of config; payload = p }

abbrev answer : AtaResponse
answer = record { status = 0x40; error = 0; sector_count = 1; contents = some (replicate 512 9) }

parse-build_ata_example :
    parse_frame (build_response read_request (ata_response answer) 5 2)
    ≡ ok (record {
      header = answer_header read_request false 0 5 2 ata;
      payload =
          ata_payload
            (record {
              flags = read_flags;
              err_feature = 0;
              sector_count = 1;
              cmd_status = 0x40;
              lba = 300;
            })
            (replicate 512 9);
    })
parse-build_ata_example =
    parse-build_ata read_request 5 2 (omega arith) (omega arith) (omega arith) answer (omega arith)

abbrev config_answer : ConfigResponse
config_answer = record {
  buffer_count = 16;
  firmware_version = 0x4019;
  sector_count = 2;
  config_string = 104 ∷ 105 ∷ [];
}

parse-build_config_example :
    parse_frame (build_response read_request (config_response config_answer) 5 2)
    ≡ ok (record {
      header = answer_header read_request false 0 5 2 config;
      payload = config_payload (record {
        buffer_count = 16;
        firmware_version = 0x4019;
        sector_count = 2;
        aoe_ccmd = 0x10;
        config_len = 2;
        config_string = 104 ∷ 105 ∷ [];
      });
    })
parse-build_config_example =
    parse-build_config read_request 5 2 (omega arith) (omega arith) (omega arith) config_answer
      (omega arith) (omega arith) (omega arith)

parse-build_error_example :
    parse_frame (build_response read_request (error_response 3) 5 2)
    ≡ ok (record {
      header = answer_header read_request true 3 5 2 ata;
      payload =
          ata_payload
            (record {
              flags = read_flags;
              err_feature = 4;
              sector_count = 0;
              cmd_status = 0x41;
              lba = 300;
            })
            [];
    })
parse-build_error_example =
    (parse-build_error read_request 5 2 (omega arith) (omega arith) (omega arith) 3 (omega arith)).0
      refl

-- A request to read sector 300, on the wire.
abbrev pub packet : ℕ → Bytes
packet ver_flags =
    2 ∷ 0 ∷ 0 ∷ 0 ∷ 0 ∷ 9 ∷ 2 ∷ 0 ∷ 0 ∷ 0 ∷ 0 ∷ 7 ∷ 0x88 ∷ 0xa2 ∷ ver_flags ∷ 0 ∷ 0 ∷ 5 ∷ 2 ∷ 0 ∷ 1
    ∷ 2 ∷ 3 ∷ 4 ∷ 0x40 ∷ 0 ∷ 1 ∷ 0x24 ∷ 44 ∷ 1 ∷ 0 ∷ 0 ∷ 0 ∷ 0 ∷ 0 ∷ 0 ∷ []

abbrev all_bytes : Bytes → Bool
all_bytes [] = true
all_bytes (x ∷ xs) = ltb x 256 && all_bytes xs

pub all_bytes-All : (d : Bytes) → all_bytes d ≡ true → All IsByte d
all_bytes-All [] h = tt
all_bytes-All (x ∷ xs) h =
    (let small : x < 256 = ground (arith, h) in small, all_bytes-All xs (ground (arith, h)))

pub packet-parses : parse_frame (packet 0x10) ≡ ok read_request
unfolding parse_frame parse_payload parse_ata_payload aoe_command aoe_flags_from_byte
    ata_flags_from_byte join_lba
packet-parses = refl

parse_frame-HeaderFits_example :
    HeaderFits read_request.header × PayloadFits ata (ata_payload (read_header 300) [])
parse_frame-HeaderFits_example =
    parse_frame-HeaderFits (packet 0x10) read_request (all_bytes-All (packet 0x10) refl)
      packet-parses
