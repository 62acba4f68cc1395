-- ===== src/Cas/Client/Sectors.antt =====
-- src/storage/cas_client.rs: `read_sectors` and `write_sectors` of the backend itself, which take the
-- number of sectors beside the buffer.
use vo_e.Common.{
  ℕ, zero, suc, ◌+◌, ◌-◌, ◌*◌, ◌/◌, ◌%◌, ◌^◌, ◌≤◌, ◌<◌, ◌≡◌, refl, arith, Bytes, codes,
  if◌then◌else◌, ltb, false, length, length-take, length-drop, take, drop, append-nil, ◌++◌,
  Outcome, ok, err, ErrorKind,
}
use vo_e.Common.Io.{Io, pure, fail, and_then, ◌>>=◌, ◌>>◌}
use vo_e.Common.Stream.{Reader, Writer}
use vo_e.Storage.{StorageError}
use vo_e.Cas.Client.{
  sector_size, IndexFile, Client, read_sector, write_sector, save_index, padded,
  write_sectors as put_sectors, write,
}

and_then_ext :
    {S E A B : Type 0} (r : Outcome E A) (f g : A → Io S E B) (s : S)
    → ((a : A) (u : S) → f a u ≡ g a u)
    → and_then r f s ≡ and_then r g s
and_then_ext (ok a) f g s same = same a s
and_then_ext (err e) f g s same = refl

-- The client, and the buffer that the caller handed over.
pub record Reading (R W F : Type 0) : Type 0 where
  pub client : Client R W F
  pub buffer : Bytes

module _ {R W F : Type 0} (reader : Reader R) (writer : Writer W) (file : IndexFile F)
    (describe : ErrorKind → Bytes) where
  abbrev pub on_client :
      {A : Type 0} → Io (Client R W F) StorageError A → Io (Reading R W F) StorageError A
  on_client m s = let (r, c) = m s.client in (r, record s { client = c })

  abbrev pub copy_to_buffer : ℕ → Bytes → Io (Reading R W F) StorageError (Unit {0})
  copy_to_buffer offset contents s = (
    ok tt,
    record s {
      buffer = take offset s.buffer ++ contents ++ drop (offset + length contents) s.buffer;
    },
  )

  unfoldable pub read_rounds : (ℕ → Bytes) → ℕ → ℕ → ℕ → Io (Reading R W F) StorageError (Unit {0})
  unfolding read_sector
  read_rounds wrong_size zero i lba = pure tt
  read_rounds wrong_size (suc count) i lba = do
    contents ← on_client (read_sector reader writer file describe wrong_size ((lba + i) % 2 ^ 64))
    copy_to_buffer (i * sector_size) contents
    read_rounds wrong_size count (suc i) lba

  unfoldable pub read_sectors : (ℕ → Bytes) → ℕ → ℕ → Io (Reading R W F) StorageError (Unit {0})
  unfolding read_rounds
  read_sectors wrong_size lba count s =
      if ltb (length s.buffer) (count * sector_size)
      then fail (StorageError.backend (codes "buffer too small")) s
      else read_rounds wrong_size count 0 lba s

  unfoldable pub write_rounds : ℕ → ℕ → ℕ → Bytes → Io (Client R W F) StorageError (Unit {0})
  unfolding write_sector
  write_rounds zero i lba contents = pure tt
  write_rounds (suc count) i lba contents = do
    write_sector reader writer file describe ((lba + i) % 2 ^ 64)
        (take sector_size (drop (i * sector_size) contents))
    write_rounds count (suc i) lba contents

  unfoldable pub write_sectors : ℕ → ℕ → Bytes → Io (Client R W F) StorageError (Unit {0})
  unfolding write_rounds save_index
  write_sectors lba count contents =
      if ltb (length contents) (count * sector_size)
      then fail (StorageError.backend (codes "data too small"))
      else do write_rounds count 0 lba contents; save_index reader writer file describe

  write_rounds-eq :
      (count i lba : ℕ) (d : Bytes)
      → (i + count) * 512 ≤ length d
      → (c : Client R W F)
      → put_sectors reader writer file describe count i lba d c ≡ write_rounds count i lba d c
  unfolding write_rounds put_sectors
  write_rounds-eq zero i lba d enough c = refl
  write_rounds-eq (suc count) i lba d enough c =
      let piece = take 512 (drop (i * 512) d) in
      let full : 512 - length piece ≡ 0 =
        omega (arith, enough, length-take 512 (drop (i * 512) d), length-drop (i * 512) d) in
      let whole : padded reader writer file describe d (i * 512) ≡ piece =
        rw full (append-nil piece) in
      let m = write_sector reader writer file describe ((lba + i) % 2 ^ 64) piece in
      rw whole (
        and_then_ext (m c).0 _ _ (m c).1
          (λ done u. write_rounds-eq count (suc i) lba d (omega (arith, enough)) u))

  -- `write_sectors`, given the data of at most 255 whole sectors, does what `write` of the trait does.
  pub write_sectors-eq-write :
      (lba count : ℕ) (d : Bytes) (c : Client R W F)
      → length d ≡ count * 512
      → count < 256
      → write_sectors lba count d c ≡ write reader writer file describe lba d c
  unfolding write write_sectors
  write_sectors-eq-write lba count d c l few =
      let sectors : (length d + sector_size - 1) / sector_size ≡ count = omega (arith, l) in
      let whole : ltb (length d) (count * 512) ≡ false = ground (arith, l) in
      let small : ltb 255 count ≡ false = ground (arith, few) in
      let same = write_rounds-eq count 0 lba d (omega (arith, l)) c in
      rw (sectors, whole, small, same) refl
