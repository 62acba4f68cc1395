-- ===== src/Protocol/RoundTrip.antt =====
-- Every response parses, to a frame that answers the request.
use vo_e.Common.{
  ℕ, ◌+◌, ◌%◌, ◌^◌, ◌<◌, ◌≤◌, ◌≡◌, refl, ap, arith, Bool, true, false, Bytes, length, ltb_of_le,
  Outcome, ok, err, from_be16-be16, from_be32-be32, take_all, lt→ltb, ◌>>=◌, ◌++◌, [], ◌∷◌, be16,
}
use vo_e.Protocol.Types.{
  error_abrt, AoeCommand, aoe_header_size, ata_header_size, config_header_min_size,
  ata_flags_to_byte, AoeHeader, ata, config, AoePayload, ata_payload, config_payload, AoeFrame,
  AtaFlags, aoe_command, aoe_command_code,
}
use vo_e.Protocol.Parse.{
  ParseError, too_short, parse_frame, parse_payload, parse_ata_payload, parse_config_payload,
}
use vo_e.Protocol.Build.{
  AtaResponse, ConfigResponse, ata_response, config_response, error_response, build_response,
  build_header, build_ata_response, build_config_response, build_error_response, build_lba,
  error_trailer, request_ata_flags, request_lba, contents_bytes,
}
use vo_e.Protocol.Wire.{aoe_flags_byte, ata_flags_byte, join_lba-build_lba}

-- The header of an answer: the addresses swapped, the target's own shelf and slot, the request's tag.
abbrev pub answer_header : AoeFrame → Bool → ℕ → ℕ → ℕ → AoeCommand → AoeHeader
answer_header request failed code shelf slot command = record {
  dst_mac = request.header.src_mac;
  src_mac = request.header.dst_mac;
  version = request.header.version;
  flags = record { response = true; error = failed };
  error = code;
  shelf = shelf;
  slot = slot;
  command = command;
  tag = request.header.tag;
}

aoe_command-aoe_command_code : (c : AoeCommand) → aoe_command (aoe_command_code c) ≡ ok c
unfolding aoe_command aoe_command_code
aoe_command-aoe_command_code ata = refl
aoe_command-aoe_command_code config = refl

parse_ata_payload-build_lba :
    (flags : AtaFlags) (e n status lba : ℕ) (rest : Bytes)
    → lba < 2 ^ 48
    → parse_ata_payload
        (ata_flags_to_byte flags ∷ e ∷ n ∷ status ∷ (build_lba lba ++ (0 ∷ 0 ∷ rest)))
      ≡ ok (
          ata_payload
            (record {
              flags = flags;
              err_feature = e;
              sector_count = n;
              cmd_status = status;
              lba = lba;
            })
            rest)
unfolding parse_ata_payload build_lba
parse_ata_payload-build_lba flags e n status lba rest h = rw (
  ltb_of_le (length (ata_flags_to_byte flags ∷ e ∷ n ∷ status ∷ (build_lba lba ++ (0 ∷ 0 ∷ rest))))
      ata_header_size (omega arith),
  ata_flags_byte flags,
  join_lba-build_lba lba h,
)

parse_config_payload-be16 :
    (buffers firmware sectors code : ℕ) (text : Bytes)
    → buffers < 2 ^ 16
    → firmware < 2 ^ 16
    → length text < 2 ^ 16
    → parse_config_payload (
        be16 buffers ++ (be16 firmware ++ (sectors ∷ code ∷ (be16 (length text % 2 ^ 16) ++ text))))
      ≡ ok (
          config_payload (record {
            buffer_count = buffers;
            firmware_version = firmware;
            sector_count = sectors;
            aoe_ccmd = code;
            config_len = length text;
            config_string = text;
          }))
unfolding parse_config_payload
parse_config_payload-be16 buffers firmware sectors code [] hb hf ht =
    rw (from_be16-be16 buffers hb, from_be16-be16 firmware hf)
parse_config_payload-be16 buffers firmware sectors code (x ∷ xs) hb hf ht =
    let same : length (x ∷ xs) % 2 ^ 16 ≡ length (x ∷ xs) = omega arith in
    let whole : Bytes =
      be16 buffers
      ++ (be16 firmware ++ (sectors ∷ code ∷ (be16 (length (x ∷ xs) % 2 ^ 16) ++ (x ∷ xs)))) in
    rw (
      from_be16-be16 buffers hb,
      from_be16-be16 firmware hf,
      same,
      from_be16-be16 (length (x ∷ xs)) ht,
      ltb_of_le (length whole) config_header_min_size (omega arith),
      lt→ltb 0 (length (x ∷ xs)) (omega arith),
      ltb_of_le (length whole) (config_header_min_size + length (x ∷ xs)) (omega arith),
      take_all (length xs) xs (omega arith),
    )

module _ (request : AoeFrame) (shelf slot : ℕ) (version : request.header.version ≤ 1)
    (tag : request.header.tag < 2 ^ 32) (address : shelf < 2 ^ 16) where
  parse_frame-build_header :
      (failed : Bool) (code : ℕ) (command : AoeCommand) (rest : Bytes)
      → parse_frame (build_header request failed code shelf slot command ++ rest) ≡ (
          parse_payload command rest >>= λ p.
          ok
            (record { header = answer_header request failed code shelf slot command; payload = p }))
  unfolding parse_frame build_header
  parse_frame-build_header failed code command rest =
      let (v, f) =
        aoe_flags_byte (record { response = true; error = failed }) request.header.version
          version in
      rw (
        v,
        f,
        ltb_of_le 1 request.header.version version,
        ltb_of_le (length (build_header request failed code shelf slot command ++ rest))
            aoe_header_size (omega arith),
        aoe_command-aoe_command_code command,
        from_be16-be16 shelf address,
        from_be32-be32 request.header.tag tag,
      )

  -- For a request of version at most 1 with a 32-bit tag and a 48-bit LBA, and a target's 16-bit
  -- shelf: an ATA answer is read back as the request's ATA header with the answer's registers and data.
  pub parse-build_ata :
      (r : AtaResponse)
      → request_lba request.payload < 2 ^ 48
      → parse_frame (build_response request (ata_response r) shelf slot)
        ≡ ok (record {
          header = answer_header request false 0 shelf slot ata;
          payload =
              ata_payload
                (record {
                  flags = request_ata_flags request.payload;
                  err_feature = r.error;
                  sector_count = r.sector_count;
                  cmd_status = r.status;
                  lba = request_lba request.payload;
                })
                (contents_bytes r.contents);
        })
  unfolding build_response build_ata_response parse_payload
  parse-build_ata r small = rw (
    parse_frame-build_header false 0 ata (
        ata_flags_to_byte (request_ata_flags request.payload)
        ∷ r.error
        ∷ r.sector_count
        ∷ r.status
        ∷ (build_lba (request_lba request.payload) ++ (0 ∷ 0 ∷ contents_bytes r.contents))),
    parse_ata_payload-build_lba (request_ata_flags request.payload) r.error r.sector_count r.status
        (request_lba request.payload) (contents_bytes r.contents) small,
  )

  -- For a request of version at most 1 with a 32-bit tag, a target's 16-bit shelf, and 16-bit
  -- counts and string length: a config answer is read back with its own counts and its whole config
  -- string.
  pub parse-build_config :
      (r : ConfigResponse)
      → r.buffer_count < 2 ^ 16
      → r.firmware_version < 2 ^ 16
      → length r.config_string < 2 ^ 16
      → parse_frame (build_response request (config_response r) shelf slot)
        ≡ ok (record {
          header = answer_header request false 0 shelf slot config;
          payload = config_payload (record {
            buffer_count = r.buffer_count;
            firmware_version = r.firmware_version;
            sector_count = r.sector_count;
            aoe_ccmd = 0x10;
            config_len = length r.config_string;
            config_string = r.config_string;
          });
        })
  unfolding build_response build_config_response parse_payload
  parse-build_config r hb hf ht = rw (
    parse_frame-build_header false 0 config (
        be16 r.buffer_count
        ++ (be16 r.firmware_version
            ++ (r.sector_count
                ∷ 0x10
                ∷ (be16 (length r.config_string % 2 ^ 16) ++ r.config_string)))),
    parse_config_payload-be16 r.buffer_count r.firmware_version r.sector_count 0x10 r.config_string
        hb hf ht,
  )

  -- For a request of version at most 1 with a 32-bit tag and a 48-bit LBA, and a target's 16-bit
  -- shelf: an error answer to an ATA request is read back with the error flag and code, the ABRT register
  -- and the request's LBA. An error answer to a config request is a bare AoE header, which the
  -- parser refuses as too short.
  pub parse-build_error :
      (code : ℕ)
      → request_lba request.payload < 2 ^ 48
      → (request.header.command ≡ ata
          → parse_frame (build_response request (error_response code) shelf slot)
            ≡ ok (record {
              header = answer_header request true code shelf slot ata;
              payload =
                  ata_payload
                    (record {
                      flags = request_ata_flags request.payload;
                      err_feature = error_abrt;
                      sector_count = 0;
                      cmd_status = 0x41;
                      lba = request_lba request.payload;
                    })
                    [];
            }))
        × (request.header.command ≡ config
            → parse_frame (build_response request (error_response code) shelf slot)
              ≡ err (too_short 32 24))
  unfolding build_response build_error_response parse_payload error_trailer
  parse-build_error code small = (
    λ h.
        rw
          (
            h,
            parse_frame-build_header true code ata (
                ata_flags_to_byte (request_ata_flags request.payload)
                ∷ error_abrt
                ∷ 0
                ∷ 0x41
                ∷ (build_lba (request_lba request.payload) ++ (0 ∷ 0 ∷ []))),
          )
          (ap
            (λ (r : Outcome ParseError AoePayload). r >>= λ p.
              ok (record { header = answer_header request true code shelf slot ata; payload = p }))
            (parse_ata_payload-build_lba (request_ata_flags request.payload) error_abrt 0 0x41
              (request_lba request.payload) [] small)),
    λ h. rw (h, parse_frame-build_header true code config []),
  )
