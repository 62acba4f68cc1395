-- ===== src/Protocol/Bounds.antt =====
-- What a parsed frame's fields are within.
use vo_e.Common.{
  ℕ, zero, suc, ◌+◌, ◌^◌, ◌<◌, ◌≤◌, ◌≡◌, refl, arith, Bool, true, false, ◌⊎◌, inl, inr, Bytes,
  IsByte, length, All, take, drop, ltb, ◌==◌, not, Outcome, ok, err, >>=-eq-ok, ok_inj, [], ◌∷◌,
  from_be16, subst, if◌then◌else◌, shr, map_err, length-take, length-drop,
}
use vo_e.Protocol.Types.{
  AoeHeader, AoeFrame, AoePayload, ata_payload, config_payload, AoeCommand, ata, config,
  aoe_command, mac_bytes, aoe_ethertype, aoe_header_size, ata_header_size, config_header_min_size,
}
use vo_e.Protocol.Parse.{
  unknown_command, parse_frame, parse_payload, parse_ata_payload, parse_config_payload, join_lba,
  byte_at, mac_at,
}
use vo_e.Protocol.Wire.{join_lba-eq-sum}

pub byte_at-IsByte : (d : Bytes) (i : ℕ) → All IsByte d → IsByte (byte_at d i)
byte_at-IsByte [] i h = omega arith
byte_at-IsByte (x ∷ xs) zero (h, hs) = h
byte_at-IsByte (x ∷ xs) (suc i) (h, hs) = byte_at-IsByte xs i hs

mac_at-IsByte : (d : Bytes) (i : ℕ) → All IsByte d → All IsByte (mac_bytes (mac_at d i))
mac_at-IsByte d i h =
    let b : (j : ℕ) → IsByte (byte_at d j) = λ j. byte_at-IsByte d j h in
    (b i, (b (i + 1), (b (i + 2), (b (i + 3), (b (i + 4), (b (i + 5), tt))))))

pub drop-IsByte : (n : ℕ) (d : Bytes) → All IsByte d → All IsByte (drop n d)
drop-IsByte zero d h = h
drop-IsByte (suc n) [] h = tt
drop-IsByte (suc n) (x ∷ xs) (h, hs) = drop-IsByte n xs hs

-- The ranges of the header's fields.
abbrev pub HeaderFits : AoeHeader → Type 0
HeaderFits h =
    All IsByte (mac_bytes h.dst_mac)
    × All IsByte (mac_bytes h.src_mac)
    × (h.version ≤ 1)
    × (h.error < 2 ^ 8)
    × (h.shelf < 2 ^ 16)
    × (h.slot < 2 ^ 8)
    × (h.tag < 2 ^ 32)

-- The payload that goes with a command, its fields within their words.
abbrev pub PayloadFits : AoeCommand → AoePayload → Type 0
PayloadFits ata (ata_payload h d) =
    (h.err_feature < 2 ^ 8) × (h.sector_count < 2 ^ 8) × (h.cmd_status < 2 ^ 8) × (h.lba < 2 ^ 48)
PayloadFits ata (config_payload h) = ⊥
PayloadFits config (ata_payload h d) = ⊥
PayloadFits config (config_payload h) =
    (h.buffer_count < 2 ^ 16)
    × (h.firmware_version < 2 ^ 16)
    × (h.sector_count < 2 ^ 8)
    × (h.aoe_ccmd < 2 ^ 8)
    × (h.config_len < 2 ^ 16)
    × (length h.config_string ≡ h.config_len)

join_lba-lt :
    (d : Bytes)
    → All IsByte d
    → join_lba (byte_at d 4) (byte_at d 5) (byte_at d 6) (byte_at d 7) (byte_at d 8) (byte_at d 9)
      < 2 ^ 48
join_lba-lt d h =
    let b : (i : ℕ) → IsByte (byte_at d i) = λ i. byte_at-IsByte d i h in
    rw
      (join_lba-eq-sum (byte_at d 4) (byte_at d 5) (byte_at d 6) (byte_at d 7) (byte_at d 8)
        (byte_at d 9) (b 4) (b 5) (b 6) (b 7) (b 8))
      (omega (arith, b 4, b 5, b 6, b 7, b 8, b 9))

-- A guard that fails with an error was passed.
pub if_err-eq-ok :
    {E A : Type 0} (b : Bool) (e : E) (r : Outcome E A) {a : A}
    → (if b then err e else r) ≡ ok a
    → (b ≡ false) × (r ≡ ok a)
if_err-eq-ok true e r h = cc
if_err-eq-ok false e r h = (refl, h)

if-cases :
    {A : Type 0} (b : Bool) (x y : A) {a : A}
    → (if b then x else y) ≡ a
    → ((b ≡ true) × (x ≡ a)) ⊎ ((b ≡ false) × (y ≡ a))
if-cases true x y h = inl (refl, h)
if-cases false x y h = inr (refl, h)

parse_ata_payload-PayloadFits :
    (d : Bytes) (p : AoePayload) → All IsByte d → parse_ata_payload d ≡ ok p → PayloadFits ata p
unfolding parse_ata_payload
parse_ata_payload-PayloadFits d p h e =
    let (_, got) = if_err-eq-ok (ltb (length d) ata_header_size) _ _ e in
    subst (PayloadFits ata) (ok_inj got)
      (byte_at-IsByte d 1 h, byte_at-IsByte d 2 h, byte_at-IsByte d 3 h, join_lba-lt d h)

parse_config_payload-PayloadFits :
    (d : Bytes) (p : AoePayload)
    → All IsByte d
    → parse_config_payload d ≡ ok p
    → PayloadFits config p
unfolding parse_config_payload
parse_config_payload-PayloadFits d p h e =
    let b : (i : ℕ) → IsByte (byte_at d i) = λ i. byte_at-IsByte d i h in
    let n = from_be16 (byte_at d 6) (byte_at d 7) in
    let (long, got) = if_err-eq-ok (ltb (length d) config_header_min_size) _ _ e in
    let words : (from_be16 (byte_at d 0) (byte_at d 1) < 2 ^ 16)
        × (from_be16 (byte_at d 2) (byte_at d 3) < 2 ^ 16)
        × (n < 2 ^ 16) =
      (omega (arith, b 0, b 1), omega (arith, b 2, b 3), omega (arith, b 6, b 7)) in
    elim (if-cases (ltb 0 n) _ _ got) [
      | inl (some_text, got') ↦
          let (whole, built) =
            if_err-eq-ok (ltb (length d) (config_header_min_size + n)) _ _ got' in
          let enough : config_header_min_size + n ≤ length d = ground (arith, whole) in
          subst (PayloadFits config) (ok_inj built) (
            words.0,
            words.1,
            b 4,
            b 5,
            words.2,
            (let l : length (take n (drop config_header_min_size d)) ≡ n = omega (
              arith,
              enough,
              length-take n (drop config_header_min_size d),
              length-drop config_header_min_size d,
            ) in
                l),
          )
      | inr (no_text, built) ↦
          let zero_length : 0 ≡ n = ground (arith, no_text) in
          subst (PayloadFits config) (ok_inj built)
            (words.0, words.1, b 4, b 5, words.2, zero_length)
    ]

parse_payload-PayloadFits :
    (c : AoeCommand) (d : Bytes) (p : AoePayload)
    → All IsByte d
    → parse_payload c d ≡ ok p
    → PayloadFits c p
unfolding parse_payload
parse_payload-PayloadFits ata d p h e = parse_ata_payload-PayloadFits d p h e
parse_payload-PayloadFits config d p h e = parse_config_payload-PayloadFits d p h e

-- A frame that was parsed from bytes is of version 0 or 1, its payload is that of its command, and each
-- of its numbers is within its word: the six bytes of both addresses, the error, shelf, slot and tag;
-- the registers of an ATA payload, its LBA within 48 bits; the counts, the versions and the length of
-- a config payload, whose string is as long as its length says.
pub parse_frame-HeaderFits :
    (d : Bytes) (f : AoeFrame)
    → All IsByte d
    → parse_frame d ≡ ok f
    → HeaderFits f.header × PayloadFits f.header.command f.payload
unfolding parse_frame
parse_frame-HeaderFits d f h e =
    let b : (i : ℕ) → IsByte (byte_at d i) = λ i. byte_at-IsByte d i h in
    let (_, e1) = if_err-eq-ok (ltb (length d) aoe_header_size) _ _ e in
    let (_, e2) =
      if_err-eq-ok (not (from_be16 (byte_at d 12) (byte_at d 13) == aoe_ethertype)) _ _ e1 in
    let (version, e3) = if_err-eq-ok (ltb 1 (shr (byte_at d 14) 4)) _ _ e2 in
    let (command, known, e4) =
      >>=-eq-ok (map_err (λ _. unknown_command (byte_at d 19)) (aoe_command (byte_at d 19))) _ e3 in
    let (payload, parsed, e5) = >>=-eq-ok (parse_payload command (drop aoe_header_size d)) _ e4 in
    subst (λ (g : AoeFrame). HeaderFits g.header × PayloadFits g.header.command g.payload)
      (ok_inj e5)
      (
        (
          mac_at-IsByte d 0 h,
          mac_at-IsByte d 6 h,
          (let v : shr (byte_at d 14) 4 ≤ 1 = ground (arith, version) in v),
          b 15,
          omega (arith, b 16, b 17),
          b 18,
          omega (arith, b 20, b 21, b 22, b 23),
        ),
        parse_payload-PayloadFits command (drop aoe_header_size d) payload
            (drop-IsByte aoe_header_size d h) parsed,
      )
