-- ===== src/Protocol/Wire.antt =====
-- The fields of a frame survive their coding: flags, and the 48-bit LBA.
use vo_e.Common.{
  ℕ, zero, suc, ◌+◌, ◌*◌, ◌/◌, ◌%◌, ◌^◌, ◌<◌, ◌≤◌, ◌≡◌, refl, arith, Bool, true, false, shr,
  bit_and, bit_or-shl, bit_and_mask, IsByte,
}
use vo_e.Protocol.Types.{
  AoeFlags, aoe_flags_to_byte, aoe_flags_from_byte, AtaFlags, ata_flags_to_byte,
  ata_flags_from_byte,
}
use vo_e.Protocol.Parse.{join_lba, byte_at}
use vo_e.Protocol.Build.{build_lba}

-- The version and the flags share a byte.
pub aoe_flags_byte :
    (f : AoeFlags) (version : ℕ)
    → version ≤ 1
    → (shr (aoe_flags_to_byte f version) 4 ≡ version)
      × (aoe_flags_from_byte (bit_and (aoe_flags_to_byte f version) 0x0f) ≡ f)
unfolding aoe_flags_to_byte aoe_flags_from_byte
aoe_flags_byte f version h = go f.response f.error version h
  where
    go :
        (response error : Bool) (version : ℕ)
        → version ≤ 1
        → let f : AoeFlags = record { response = response; error = error } in
          (shr (aoe_flags_to_byte f version) 4 ≡ version)
          × (aoe_flags_from_byte (bit_and (aoe_flags_to_byte f version) 0x0f) ≡ f)
    go true true zero h = (refl, refl)
    go true false zero h = (refl, refl)
    go false true zero h = (refl, refl)
    go false false zero h = (refl, refl)
    go true true (suc zero) h = (refl, refl)
    go true false (suc zero) h = (refl, refl)
    go false true (suc zero) h = (refl, refl)
    go false false (suc zero) h = (refl, refl)
    go response error (suc (suc n)) h = absurd (omega arith)

-- The ATA flags survive their byte.
pub ata_flags_byte : (f : AtaFlags) → ata_flags_from_byte (ata_flags_to_byte f) ≡ f
unfolding ata_flags_to_byte ata_flags_from_byte
ata_flags_byte f = ground arith

-- The six bytes of an LBA, as a sum.
pub join_lba-eq-sum :
    (b0 b1 b2 b3 b4 b5 : ℕ)
    → IsByte b0
    → IsByte b1
    → IsByte b2
    → IsByte b3
    → IsByte b4
    → join_lba b0 b1 b2 b3 b4 b5
      ≡ b0 + b1 * 2 ^ 8 + b2 * 2 ^ 16 + b3 * 2 ^ 24 + b4 * 2 ^ 32 + b5 * 2 ^ 40
unfolding join_lba
join_lba-eq-sum b0 b1 b2 b3 b4 b5 h0 h1 h2 h3 h4 = rw (
  bit_or-shl 8 b0 b1 h0,
  bit_or-shl 16 (b0 + b1 * 2 ^ 8) b2 (omega arith),
  bit_or-shl 24 (b0 + b1 * 2 ^ 8 + b2 * 2 ^ 16) b3 (omega arith),
  bit_or-shl 32 (b0 + b1 * 2 ^ 8 + b2 * 2 ^ 16 + b3 * 2 ^ 24) b4 (omega arith),
  bit_or-shl 40 (b0 + b1 * 2 ^ 8 + b2 * 2 ^ 16 + b3 * 2 ^ 24 + b4 * 2 ^ 32) b5 (omega arith),
)

-- The LBA survives its six bytes.
pub join_lba-build_lba :
    (lba : ℕ)
    → lba < 2 ^ 48
    → join_lba
        (byte_at (build_lba lba) 0)
        (byte_at (build_lba lba) 1)
        (byte_at (build_lba lba) 2)
        (byte_at (build_lba lba) 3)
        (byte_at (build_lba lba) 4)
        (byte_at (build_lba lba) 5)
      ≡ lba
unfolding build_lba
join_lba-build_lba lba h =
    rw
      (
        bit_and_mask 8 lba,
        bit_and_mask 8 (shr lba 8),
        bit_and_mask 8 (shr lba 16),
        bit_and_mask 8 (shr lba 24),
        bit_and_mask 8 (shr lba 32),
        bit_and_mask 8 (shr lba 40),
        join_lba-eq-sum (lba % 256) (lba / 2 ^ 8 % 256) (lba / 2 ^ 16 % 256) (lba / 2 ^ 24 % 256)
            (lba / 2 ^ 32 % 256) (lba / 2 ^ 40 % 256) (omega arith) (omega arith) (omega arith)
            (omega arith) (omega arith),
      )
      (omega arith)
