-- ===== src/Nbd/Server/Writes.antt =====
-- Writes of a client: whole sectors, and a partial last one.
use vo_e.Common.{
  ℕ, ◌+◌, ◌-◌, ◌*◌, ◌%◌, ◌≤◌, ◌<◌, ◌≡◌, ◌≢◌, ◌⊎◌, inl, inr, refl, sym, ap, ◌∙◌, subst, arith, Bytes,
  Bool-cases, false, ltb, ◌==◌, ==_iff, length, take, drop, replicate, length-append, length-take,
  length-drop, length-replicate, take-drop-take, drop-drop, append_assoc, append-nil, ok, err,
  Outcome-cases, ◌++◌,
}
use vo_e.Common.Stream.{Reader, Writer, ReaderLaws, WriterLaws, read_front}
use vo_e.Storage.{StorageError, DeviceInfo, BlockStorage}
use vo_e.Storage.Laws.{slice, put_at, StorageLaws}
use vo_e.Nbd.Protocol.{NbdRequest, Connection}
use vo_e.Nbd.Server.{eio, request_lba, request_sectors, filled, handle_write}
use vo_e.Nbd.Server.Requests.{reply_bytes, send_reply-Adds}

-- Some bytes put in place, and after them what is there already: the bytes put in place.
put_at-tail :
    (i k : ℕ) (p disk : Bytes)
    → k ≤ 512
    → (j : ℕ) → i + length p ≡ j + k
    → j + 512 ≤ length disk
    → put_at i (p ++ drop k (slice j 512 disk)) disk ≡ put_at i p disk
put_at-tail i k p disk small j at inside =
    let tail = drop k (slice j 512 disk) in
    let l : length tail ≡ 512 - k = omega (
      arith,
      length-drop k (slice j 512 disk),
      length-take 512 (drop j disk),
      length-drop j disk,
    ) in
    let after : i + length (p ++ tail) ≡ j + 512 = omega (arith, length-append p tail, l) in
    ap (λ n. take i disk ++ ((p ++ tail) ++ drop n disk)) after
    ∙ ap (λ x. take i disk ++ x)
        (append_assoc p tail (drop (j + 512) disk)
          ∙ ap (λ x. p ++ x)
              (ap (λ x. tail ++ x) (sym (drop-drop 512 j disk))
                ∙ take-drop-take k 512 (drop j disk) small (omega (arith, length-drop j disk))
                ∙ drop-drop k j disk
                ∙ ap (λ n. drop n disk) (sym at)))

module _ {S : Type 0} (device : BlockStorage S) (laws : StorageLaws device) (q : NbdRequest)
    (payload : Bytes) (s : S) (l : length payload ≡ q.length) (ready : laws.IsReady s)
    (fits : request_lba q + request_sectors q ≤ (device.info s).total_sectors) where
  abbrev pub Filled : Type 0
  Filled =
      (length (filled device q payload s).0 ≡ request_sectors q * 512)
      × laws.IsReady (filled device q payload s).1
      × (laws.disk (filled device q payload s).1 ≡ laws.disk s)
      × (device.info (filled device q payload s).1 ≡ device.info s)

  abbrev last : ℕ
  last = request_lba q + (request_sectors q - 1)

  last_fits : 0 < q.length → last + 1 ≤ (device.info s).total_sectors
  last_fits some_bytes = omega (arith, fits, some_bytes)

  abbrev zeros : Bytes
  zeros = replicate (request_sectors q * 512 - q.length) 0

  last_sector :
      (d : Bytes)
      → 0 < q.length
      → (device.read last 1 s).0 ≡ ok d
      → d ≡ slice (last * 512) 512 (laws.disk s)
  last_sector d some_bytes got = laws.read_ok last 1 s d ready (last_fits some_bytes) got

  length-last_sector : (d : Bytes) → 0 < q.length → (device.read last 1 s).0 ≡ ok d → length d ≡ 512
  length-last_sector d some_bytes got =
      let whole = laws.disk_size s ready in
      let inside = last_fits some_bytes in
      ap length (last_sector d some_bytes got)
      ∙ (let e : length (slice (last * 512) 512 (laws.disk s)) ≡ 512 = omega (
        arith,
        length-take 512 (drop (last * 512) (laws.disk s)),
        length-drop (last * 512) (laws.disk s),
        whole,
        inside,
      ) in
          e)

  -- The data of a write is whole sectors, and the device has its bytes.
  pub filled-Filled : Filled
  unfolding filled
  filled-Filled = elim (Bool-cases (q.length % 512 == 0)) [
    | inl e ↦
        let even : q.length % 512 ≡ 0 = (==_iff (q.length % 512) 0).0 e in
        rw e (
          (let w : length (payload ++ zeros) ≡ request_sectors q * 512 = omega (
            arith,
            length-append payload zeros,
            l,
            length-replicate {A = ℕ} (request_sectors q * 512 - q.length) 0,
          ) in
              w),
          ready,
          refl,
          refl,
        )
    | inr e ↦
        let some_bytes : 0 < q.length = ground (arith, e) in
        let (ready', disk, info) = laws.read_keeps last 1 s ready (last_fits some_bytes) in
        elim (Outcome-cases (device.read last 1 s).0) [
          | inl (d, got) ↦
              let wide = length-last_sector d some_bytes got in
              let odd : q.length % 512 ≢ 0 = (λ z. ground (arith, e, z)) in
              rw (e, got)
                (
                  (let w : length (payload ++ drop (q.length % 512) d) ≡ request_sectors q * 512 =
                        omega (
                          arith,
                          length-append payload (drop (q.length % 512) d),
                          l,
                          length-drop (q.length % 512) d,
                          wide,
                          odd,
                        ) in
                      w),
                  ready',
                  disk,
                  info,
                )
          | inr (k, failed) ↦
              rw (e, failed)
                (
                  (let w : length (payload ++ zeros) ≡ request_sectors q * 512 = omega (
                    arith,
                    length-append payload zeros,
                    l,
                    length-replicate {A = ℕ} (request_sectors q * 512 - q.length) 0,
                  ) in
                      w),
                  ready',
                  disk,
                  info,
                )
        ]
  ]

  -- The last sector is partial and could not be read.
  abbrev pub LastUnread : Type 0
  LastUnread = (q.length % 512 ≢ 0) × ((k : StorageError) × ((device.read last 1 s).0 ≡ err k))

  -- Writing the data puts the client's bytes in place and nothing else, unless a partial last sector
  -- could not be read: then zeros come after them.
  pub put_at-filled :
      q.offset % 512 ≡ 0
      → (put_at q.offset (filled device q payload s).0 (laws.disk s)
          ≡ put_at q.offset payload (laws.disk s))
        ⊎ (LastUnread
            × (put_at q.offset (filled device q payload s).0 (laws.disk s)
                ≡ put_at q.offset (payload ++ zeros) (laws.disk s)))
  unfolding filled
  put_at-filled aligned = elim (Bool-cases (q.length % 512 == 0)) [
    | inl e ↦
        let even : q.length % 512 ≡ 0 = (==_iff (q.length % 512) 0).0 e in
        let none_left : request_sectors q * 512 - q.length ≡ 0 = omega (arith, even) in
        rw (e, none_left) (inl (ap (λ x. put_at q.offset x (laws.disk s)) (append-nil payload)))
    | inr e ↦
        let some_bytes : 0 < q.length = ground (arith, e) in
        let odd : q.length % 512 ≢ 0 = (λ z. ground (arith, e, z)) in
        elim (Outcome-cases (device.read last 1 s).0) [
          | inr (k, failed) ↦ rw (e, failed) (inr ((odd, (k, refl)), refl))
          | inl (d, got) ↦
              let whole = laws.disk_size s ready in
              let inside = last_fits some_bytes in
              rw (e, got)
                (inl (
                  ap (λ x. put_at q.offset (payload ++ drop (q.length % 512) x) (laws.disk s))
                    (last_sector d some_bytes got)
                  ∙ put_at-tail q.offset (q.length % 512) payload (laws.disk s) (omega arith)
                      (last * 512)
                      (let sum : q.offset + length payload ≡ last * 512 + q.length % 512 =
                          omega (arith, l, aligned, some_bytes, odd) in
                        sum)
                      (omega (arith, whole, inside))))
        ]
  ]

module _ {R W S : Type 0} (reader : Reader R) (reads : ReaderLaws reader) (writer : Writer W)
    (writes : WriterLaws writer) (device : BlockStorage S) (laws : StorageLaws device) where
  -- The disk after a write at a sector's start: the client's bytes are put in place and nothing else, or
  -- the last sector is partial and could not be read, and zeros to its end come after them.
  abbrev pub Placed : NbdRequest → Bytes → S → S → Type 0
  Placed q payload s s' =
      (laws.disk s' ≡ put_at q.offset payload (laws.disk s))
      ⊎ (((q.length % 512 ≢ 0)
            × ((k : StorageError) × ((device.read (request_lba q + (request_sectors q - 1)) 1 s).0
                  ≡ err k)))
          × (laws.disk s'
              ≡ put_at q.offset (payload ++ replicate (request_sectors q * 512 - q.length) 0)
                  (laws.disk s)))

  -- What a write leaves: an answer without an error and its bytes on the disk, or the error EIO of a
  -- device that was asked to write them and failed.
  abbrev pub WriteReply : NbdRequest → Bytes → Connection R W S → Connection R W S → Type 0
  WriteReply q payload c c' =
      ((writes.written c'.output ≡ writes.written c.output ++ reply_bytes q.handle 0)
        × Placed q payload c.storage c'.storage)
      ⊎ ((writes.written c'.output ≡ writes.written c.output ++ reply_bytes q.handle eio)
          × ((k : StorageError) × ((device.write (request_lba q)
                  (filled device q payload c.storage).0 (filled device q payload c.storage).1).0
                ≡ err k)))

  pub handle_write-sent :
      (q : NbdRequest) (payload rest : Bytes) (c : Connection R W S)
      → reads.pending c.input ≡ payload ++ rest
      → length payload ≡ q.length
      → laws.IsReady c.storage
      → q.offset % 512 ≡ 0
      → request_sectors q ≤ 255
      → request_lba q + request_sectors q ≤ (device.info c.storage).total_sectors
      → laws.Accepts
          (request_lba q)
          (filled device q payload c.storage).0
          (filled device q payload c.storage).1
      → let done = handle_write reader writer device q c in
        (done.0 ≡ ok tt → WriteReply q payload c done.1)
        × laws.IsReady done.1.storage
        × (device.info done.1.storage ≡ device.info c.storage)
        × (reads.pending done.1.input ≡ rest)
  unfolding handle_write
  handle_write-sent q payload rest c sent l ready aligned few fits accepts =
      let under : ltb 255 (request_sectors q) ≡ false = ground (arith, few) in
      let (got, left) = read_front reader reads q.length payload rest c.input sent l in
      let (wide, ready1, disk1, info1) =
        filled-Filled device laws q payload c.storage l ready fits in
      let d = (filled device q payload c.storage).0 in
      let s1 = (filled device q payload c.storage).1 in
      let fits1 : request_lba q + request_sectors q ≤ (device.info s1).total_sectors =
        subst (λ (i : DeviceInfo). request_lba q + request_sectors q ≤ i.total_sectors) (sym info1)
          fits in
      let few' : request_sectors q ≤ 256 = omega (arith, few) in
      let (ready2, info2) =
        laws.write_ready (request_lba q) (request_sectors q) d s1 ready1 fits1 few' wide accepts in
      let start : request_lba q * 512 ≡ q.offset = omega (arith, aligned) in
      rw (under, got)
        (elim (Outcome-cases (device.write (request_lba q) d s1).0) [
          | inr (k, failed) ↦ rw failed (
            λ answered. inr (send_reply-Adds writer writes q eio c.output answered, (k, refl)),
            ready2,
            info2 ∙ info1,
            left,
          )
          | inl (tt, done) ↦
              let put =
                laws.write_ok (request_lba q) (request_sectors q) d s1 ready1 fits1 few' wide
                  accepts done
                ∙ ap (λ n. put_at n d (laws.disk s1)) start
                ∙ ap (put_at q.offset d) disk1 in
              let placed : Placed q payload c.storage (device.write (request_lba q) d s1).1 =
                elim (put_at-filled device laws q payload c.storage l ready fits aligned) [
                  | inl e ↦ inl (put ∙ e)
                  | inr (lost, e) ↦ inr (lost, put ∙ e)
                ] in
              rw done (
                λ answered. inl (send_reply-Adds writer writes q 0 c.output answered, placed),
                ready2,
                info2 ∙ info1,
                left,
              )
        ])
