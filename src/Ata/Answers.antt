-- ===== src/Ata/Answers.antt =====
-- The answers to reads and writes, on a device that keeps `StorageLaws`.
use vo_e.Common.{
  ℕ, ◌+◌, ◌*◌, ◌%◌, ◌≡◌, ◌≢◌, ◌≤◌, ◌<◌, ◌⊎◌, inl, inr, refl, sym, ap, ◌∙◌, arith, Bytes, Bool-cases,
  ==_iff, length, ltb, ◌==◌, Outcome, err, Outcome-cases, [],
}
use vo_e.Protocol.Types.{
  AtaHeader, ata_command, sector_size, lba28, lba48, error_abrt, error_idnf, error_unc,
}
use vo_e.Protocol.Build.{AtaResponse}
use vo_e.Storage.{StorageError, BlockStorage, DeviceInfo}
use vo_e.Storage.Laws.{slice, put_at, StorageLaws, slice-put_at}
use vo_e.Ata.{
  handle_ata_command, run_command, handle_read, handle_write, success, success_with_data,
  request_start, request_count, error,
}

-- The header with another command.
abbrev pub with_command : ℕ → AtaHeader → AtaHeader
with_command code header = record header { cmd_status = code }

module _ {S : Type 0} (storage : BlockStorage S) (laws : StorageLaws storage) where
  abbrev total : S → ℕ
  total s = (storage.info s).total_sectors

  -- The device was asked to write and failed.
  abbrev pub WriteFails : AtaHeader → Bytes → S → S → Type 0
  WriteFails header contents s u =
      (e : StorageError) × (storage.write (request_start header) contents s ≡ (err e, u))

  -- The device was asked to read and failed; its count is a byte.
  abbrev pub ReadFails : AtaHeader → S → S → Type 0
  ReadFails header s u =
      (e : StorageError) × (storage.read (request_start header) (request_count header % 256) s
        ≡ (err e, u))

  -- What a write command may answer, and what it leaves.
  abbrev pub WriteAnswers : AtaHeader → Bytes → S → AtaResponse × S → Type 0
  WriteAnswers header contents s m =
      ((m.0 ≡ success)
        × (length contents ≡ request_count header * 512)
        × (request_start header + request_count header ≤ total s)
        × (laws.disk m.1 ≡ put_at (request_start header * 512) contents (laws.disk s)))
      ⊎ ((m.0 ≡ error error_abrt) × (length contents ≢ request_count header * 512) × (m.1 ≡ s))
      ⊎ ((m.0 ≡ error error_idnf)
          × (length contents ≡ request_count header * 512)
          × (total s < request_start header + request_count header)
          × (m.1 ≡ s))
      ⊎ ((m.0 ≡ error error_unc)
          × (length contents ≡ request_count header * 512)
          × (request_start header + request_count header ≤ total s)
          × WriteFails header contents s m.1)

  -- What a read command may answer.
  abbrev pub ReadAnswers : AtaHeader → S → AtaResponse × S → Type 0
  ReadAnswers header s m =
      ((m.0
          ≡ success_with_data
              (slice (request_start header * 512) (request_count header % 256 * 512) (laws.disk s))
              header.sector_count)
        × (request_start header + request_count header ≤ total s))
      ⊎ ((m.0 ≡ error error_idnf)
          × (total s < request_start header + request_count header)
          × (m.1 ≡ s))
      ⊎ ((m.0 ≡ error error_unc)
          × (request_start header + request_count header ≤ total s)
          × ReadFails header s m.1)

  pub request_count_le :
      (header : AtaHeader) → header.sector_count < 256 → request_count header ≤ 256
  unfolding request_count
  request_count_le header h = ground (arith, h)

  -- On a ready device that accepts the data, for a sector count that is a byte, a write is answered in
  -- one of four ways: with ABRT exactly for the wrong amount of data, else with IDNF exactly out of
  -- range, and then nothing is changed; else as done, when the device's bytes are those before with the
  -- data put in place, or with UNC, when the device was asked to write the data there and failed. The
  -- device stays ready and keeps its size in every case.
  pub handle_write-WriteAnswers :
      (header : AtaHeader) (contents : Bytes) (s : S)
      → laws.IsReady s
      → laws.Accepts (request_start header) contents s
      → header.sector_count < 256
      → WriteAnswers header contents s (handle_write storage header contents s)
        × laws.IsReady (handle_write storage header contents s).1
        × (storage.info (handle_write storage header contents s).1 ≡ storage.info s)
  unfolding handle_write
  handle_write-WriteAnswers header contents s ready accepts byte =
      let lba = request_start header in
      let count = request_count header in
      elim (Bool-cases (length contents == count * sector_size)) [
        | inr e ↦ rw e (
          inr (inl (refl, (λ (h : length contents ≡ count * 512). ground (arith, e, h)), refl)),
          ready,
          refl,
        )
        | inl e ↦ elim (Bool-cases (ltb (total s) (lba + count))) [
          | inl over ↦
              rw (e, over)
                (
                  inr (
                      inr (
                        inl (
                          refl,
                          (==_iff (length contents) (count * 512)).0 e,
                          (let past : total s < lba + count = ground (arith, over) in past),
                          refl,
                        ))),
                  ready,
                  refl,
                )
          | inr within ↦
              let l : length contents ≡ count * 512 =
                (==_iff (length contents) (count * 512)).0 e in
              let fits : lba + count ≤ total s = ground (arith, within) in
              let few = request_count_le header byte in
              let (kept, same) = laws.write_ready lba count contents s ready fits few l accepts in
              rw (e, within)
                (elim (Outcome-cases (storage.write lba contents s).0) [
                  | inl (_, done) ↦ rw done (
                    inl (
                      refl,
                      l,
                      fits,
                      laws.write_ok lba count contents s ready fits few l accepts done,
                    ),
                    kept,
                    same,
                  )
                  | inr (k, failed) ↦
                      rw failed (inr (inr (inr (refl, l, fits, (k, refl)))), kept, same)
                ])
        ]
      ]

  -- On a ready device a read is answered in one of three ways: with IDNF exactly out of range, else
  -- with the device's bytes from the start sector on, of as many sectors as a byte holds of the
  -- count, or with UNC, when the device was asked to read these and failed. The device's bytes,
  -- readiness and size stay.
  pub handle_read-ReadAnswers :
      (header : AtaHeader) (s : S)
      → laws.IsReady s
      → ReadAnswers header s (handle_read storage header s)
        × laws.IsReady (handle_read storage header s).1
        × (laws.disk (handle_read storage header s).1 ≡ laws.disk s)
        × (storage.info (handle_read storage header s).1 ≡ storage.info s)
  unfolding handle_read
  handle_read-ReadAnswers header s ready =
      let lba = request_start header in
      let count = request_count header in
      elim (Bool-cases (ltb (total s) (lba + count))) [
        | inl over ↦ rw over (
          inr (inl (refl, (let past : total s < lba + count = ground (arith, over) in past), refl)),
          ready,
          refl,
          refl,
        )
        | inr within ↦
            let fits : lba + count ≤ total s = ground (arith, within) in
            let fits' : lba + count % 256 ≤ total s = omega (arith, fits) in
            let (kept, disk, same) = laws.read_keeps lba (count % 256) s ready fits' in
            rw within (elim (Outcome-cases (storage.read lba (count % 256) s).0) [
              | inl (d, done) ↦ rw done (
                inl (
                  ap (λ x. success_with_data x header.sector_count)
                      (laws.read_ok lba (count % 256) s d ready fits' done),
                  fits,
                ),
                kept,
                disk,
                same,
              )
              | inr (k, failed) ↦ rw failed (inr (inr (refl, fits, (k, refl))), kept, disk, same)
            ])
      ]

  slice-written :
      (header : AtaHeader) (contents : Bytes) (s : S)
      → laws.IsReady s
      → length contents ≡ request_count header * 512
      → request_start header + request_count header ≤ total s
      → slice
          (request_start header * 512)
          (request_count header * 512)
          (put_at (request_start header * 512) contents (laws.disk s))
        ≡ contents
  slice-written header contents s ready l fits =
      ap
        (λ n.
          slice (request_start header * 512) n
            (put_at (request_start header * 512) contents (laws.disk s)))
        (sym l)
      ∙ slice-put_at (request_start header * 512) contents (laws.disk s)
          (omega (arith, l, fits, laws.disk_size s ready))

  done_in_range :
      (header : AtaHeader) (contents : Bytes) (s : S) (m : AtaResponse × S)
      → WriteAnswers header contents s m
      → m.0 ≡ success
      → (length contents ≡ request_count header * 512)
        × (request_start header + request_count header ≤ total s)
        × (laws.disk m.1 ≡ put_at (request_start header * 512) contents (laws.disk s))
  done_in_range header contents s m (inl (_, l, fits, disk)) done = (l, fits, disk)
  done_in_range header contents s m (inr other_answer) done =
      let same : m.0.error ≡ 0 = ap (λ (r : AtaResponse). r.error) done in
      absurd (elim other_answer [
        | inl (e, _, _) ↦ omega (arith, same, ap (λ (r : AtaResponse). r.error) e)
        | inr (inl (e, _, _, _)) ↦ omega (arith, same, ap (λ (r : AtaResponse). r.error) e)
        | inr (inr (e, _, _, _)) ↦ omega (arith, same, ap (λ (r : AtaResponse). r.error) e)
      ])

  -- On a ready device that accepts the data: after a write of 1 to 255 sectors that was answered as done, a read of the same sectors is
  -- answered with the data written, unless the device fails to read.
  pub ata_write-read :
      (header : AtaHeader) (contents : Bytes) (s : S)
      → laws.IsReady s
      → laws.Accepts (request_start header) contents s
      → 0 < header.sector_count
      → header.sector_count < 256
      → (handle_ata_command storage (with_command 0x34 header) contents s).0 ≡ success
      → let s' = (handle_ata_command storage (with_command 0x34 header) contents s).1 in
        ((handle_ata_command storage (with_command 0x24 header) [] s').0
          ≡ success_with_data contents header.sector_count)
        ⊎ ((handle_ata_command storage (with_command 0x24 header) [] s').0 ≡ error error_unc)
  unfolding handle_ata_command run_command ata_command request_start request_count lba28 lba48
  ata_write-read header contents s ready accepts some_sectors byte done =
      let w = with_command 0x34 header in
      let s' = (handle_write storage w contents s).1 in
      let (answers, ready', same) = handle_write-WriteAnswers w contents s ready accepts byte in
      let (l, fits, disk) =
        done_in_range w contents s (handle_write storage w contents s) answers done in
      let (read_answers, _, _, _) = handle_read-ReadAnswers (with_command 0x24 header) s' ready' in
      let count : request_count w ≡ header.sector_count = ground (arith, some_sectors) in
      let whole : request_count w % 256 ≡ request_count w = omega (arith, count, byte) in
      elim read_answers [
        | inl (e, _) ↦ inl (
            e
            ∙ ap (λ d. success_with_data d header.sector_count)
                (ap (λ n. slice (request_start w * 512) (n * 512) (laws.disk s')) whole
                  ∙ ap (slice (request_start w * 512) (request_count w * 512)) disk
                  ∙ slice-written w contents s ready l fits))
        | inr (inl (_, over, _)) ↦
            absurd (omega (arith, over, fits, ap (λ (i : DeviceInfo). i.total_sectors) same))
        | inr (inr (e, _, _)) ↦ inr e
      ]

  -- On a ready device with the 256 sectors that sector count 0 stands for, which does not fail to
  -- read none: a read with sector count 0 is answered as done with no data at all, as the count is
  -- cut to 0.
  pub ata_read-zero_count :
      (header : AtaHeader) (contents : Bytes) (s : S)
      → laws.IsReady s
      → header.sector_count ≡ 0
      → let r = with_command 0x24 header in
        request_start r + 256 ≤ total s
        → ((e : StorageError) → (storage.read (request_start r) 0 s).0 ≢ err e)
        → (handle_ata_command storage r contents s).0 ≡ success_with_data [] 0
  unfolding handle_ata_command run_command ata_command request_count
  ata_read-zero_count header contents s ready none_asked within works =
      let r = with_command 0x24 header in
      let (read_answers, _, _, _) = handle_read-ReadAnswers r s ready in
      let count : request_count r ≡ 256 = rw none_asked refl in
      let none : request_count r % 256 ≡ 0 = rw none_asked refl in
      elim read_answers [
        | inl (e, _) ↦
            e
            ∙ ap
                (λ n.
                  success_with_data (slice (request_start r * 512) (n * 512) (laws.disk s))
                    header.sector_count)
                none
            ∙ ap (success_with_data []) none_asked
        | inr (inl (_, over, _)) ↦ absurd (omega (arith, over, within, count))
        | inr (inr (_, _, (k, failed))) ↦ absurd (
            works k (
              ap (λ n. (storage.read (request_start r) n s).0) (sym none)
              ∙ ap (λ (m : Outcome StorageError Bytes × S). m.0) failed))
      ]
