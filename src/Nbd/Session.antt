-- ===== src/Nbd/Session.antt =====
-- A write and a read of the same bytes, one after the other.
use vo_e.Common.{
  ◌+◌, ◌-◌, ◌*◌, ◌/◌, ◌%◌, ◌≤◌, ◌≡◌, ◌≢◌, ◌⊎◌, inl, inr, sym, ap, ◌∙◌, arith, Bytes, length, ◌++◌,
  some, ok, err, ErrorKind,
}
use vo_e.Common.Io.{Io, and_then-pure_ok, and_then-pure_state}
use vo_e.Common.Stream.{Reader, Writer, ReaderLaws, WriterLaws}
use vo_e.Storage.{StorageError, DeviceInfo, BlockStorage}
use vo_e.Storage.Laws.{slice, StorageLaws, slice-put_at}
use vo_e.Nbd.Protocol.{NbdCommand, NbdRequest, command_type, read_request, Connection}
use vo_e.Common.Loop.{Turn}
use vo_e.Nbd.Server.{
  eio, request_lba, request_sectors, filled, handle_read, handle_write, then_on, serve,
}
use vo_e.Nbd.Server.Requests.{reply_bytes, handle_read-sent}
use vo_e.Nbd.Server.Writes.{handle_write-sent}
use vo_e.Nbd.Requests.{FitsWords, request_bytes, serve-eq-dispatch}

module _ {R W S : Type 0} (reader : Reader R) (reads : ReaderLaws reader) (writer : Writer W)
    (writes : WriterLaws writer) (device : BlockStorage S) (laws : StorageLaws device) where
  abbrev step : Connection R W S → Connection R W S
  step c = (serve reader writer device c).1

  goes_on-ok :
      (m : Io (Connection R W S) ErrorKind (Unit {0})) (c : Connection R W S)
      → (then_on reader writer device m c).0 ≡ ok Turn.goes_on
      → (m c).0 ≡ ok tt
  goes_on-ok m c h = (and_then-pure_ok (m c).0 Turn.goes_on (m c).1 h).0

  then_on-state :
      (m : Io (Connection R W S) ErrorKind (Unit {0})) (c : Connection R W S)
      → (then_on reader writer device m c).1 ≡ (m c).1
  then_on-state m c = and_then-pure_state (m c).0 Turn.goes_on (m c).1

  module _ (w r : NbdRequest) (payload rest : Bytes) (c : Connection R W S) (w_words : FitsWords w)
      (r_words : FitsWords r) (writing : command_type w ≡ some NbdCommand.write)
      (reading : command_type r ≡ some NbdCommand.read) (same_offset : r.offset ≡ w.offset)
      (same_length : r.length ≡ w.length)
      (sent : reads.pending c.input ≡ request_bytes w ++ (payload ++ (request_bytes r ++ rest)))
      (l : length payload ≡ w.length) (ready : laws.IsReady c.storage)
      (aligned : w.offset % 512 ≡ 0) (few : request_sectors w ≤ 255)
      (fits : request_lba w + request_sectors w ≤ (device.info c.storage).total_sectors)
      (accepts : laws.Accepts
        (request_lba w)
        (filled device w payload c.storage).0
        (filled device w payload c.storage).1)
      (reads_last : (k : StorageError)
        → (device.read (request_lba w + (request_sectors w - 1)) 1 c.storage).0 ≢ err k) where
    abbrev c1 : Connection R W S
    c1 = step c

    -- On a ready device, for a write of at most 255 whole or partial sectors within it at a sector's
    -- start, whose data follows it, that the device accepts, and whose last sector it does not fail
    -- to read, and then a read of the same bytes: when both were answered, the client got either both
    -- replies without an error, the second with the bytes that it wrote, or EIO for one of them.
    pub serve-write-read :
        (serve reader writer device c).0 ≡ ok Turn.goes_on
        → (serve reader writer device c1).0 ≡ ok Turn.goes_on
        → (writes.written (step c1).output
            ≡ (writes.written c.output ++ reply_bytes w.handle 0)
              ++ (reply_bytes r.handle 0 ++ payload))
          ⊎ (writes.written c1.output ≡ writes.written c.output ++ reply_bytes w.handle eio)
          ⊎ (writes.written (step c1).output ≡ writes.written c1.output ++ reply_bytes r.handle eio)
    serve-write-read first second =
        let c0 = record c { input = (read_request reader c.input).1 } in
        let (round, left) =
          serve-eq-dispatch reader reads writer device w (payload ++ (request_bytes r ++ rest)) c
            w_words sent in
        let writing_round : serve reader writer device c
            ≡ then_on reader writer device (handle_write reader writer device w) c0 =
          (rw writing at round) in
        let m = handle_write reader writer device w in
        let after : c1 ≡ (m c0).1 = ap (λ x. x.1) writing_round ∙ then_on-state m c0 in
        let done : (m c0).0 ≡ ok tt = goes_on-ok m c0 (sym (ap (λ x. x.0) writing_round) ∙ first) in
        let (reply, ready1, info1, left1) =
          handle_write-sent reader reads writer writes device laws w payload
            (request_bytes r ++ rest) c0 left l ready aligned few fits accepts in
        let c1' = (m c0).1 in
        let (round2, left2) =
          serve-eq-dispatch reader reads writer device r rest c1' r_words left1 in
        let c2 = record c1' { input = (read_request reader c1'.input).1 } in
        let reading_round : serve reader writer device c1'
            ≡ then_on reader writer device (handle_read reader writer device r) c2 =
          (rw reading at round2) in
        let m2 = handle_read reader writer device r in
        let after2 : step c1 ≡ (m2 c2).1 =
          ap step after ∙ ap (λ x. x.1) reading_round ∙ then_on-state m2 c2 in
        let done2 : (m2 c2).0 ≡ ok tt = goes_on-ok m2 c2 (
          sym (ap (λ x. x.0) reading_round)
          ∙ ap (λ x. (serve reader writer device x).0) (sym after)
          ∙ second) in
        let total : (device.info c1'.storage).total_sectors
            ≡ (device.info c.storage).total_sectors =
          ap (λ (i : DeviceInfo). i.total_sectors) info1 in
        let (reply2, _, _, _, _) =
          handle_read-sent reader reads writer writes device laws r c2 ready1
            (let f : request_sectors r ≤ 255 = omega (arith, few, same_length) in f)
            (let f : request_lba r + request_sectors r ≤ (device.info c1'.storage).total_sectors =
                omega (arith, fits, total, same_offset, same_length) in
              f) in
        let out : Connection R W S → Bytes = (λ x. writes.written x.output) in
        elim (reply done) [
          | inr (failed, _) ↦ inr (inl (ap out after ∙ failed))
          | inl (_, inr ((_, (k, lost)), _)) ↦ absurd (reads_last k lost)
          | inl (wrote, inl disk) ↦ elim (reply2 done2) [
            | inr failed ↦ inr (
                inr (
                  ap out after2 ∙ failed ∙ ap (λ x. out x ++ reply_bytes r.handle eio) (sym after)))
            | inl read_back ↦
                let start : r.offset / 512 * 512 ≡ w.offset = omega (arith, same_offset, aligned) in
                let n : r.length ≡ length payload = same_length ∙ sym l in
                let inside : w.offset + length payload ≤ length (laws.disk c.storage) =
                  omega (arith, l, aligned, fits, laws.disk_size c.storage ready) in
                let same : slice (r.offset / 512 * 512) r.length (laws.disk c1'.storage) ≡ payload =
                  ap (λ i. slice i r.length (laws.disk c1'.storage)) start
                  ∙ ap (λ k. slice w.offset k (laws.disk c1'.storage)) n
                  ∙ ap (slice w.offset (length payload)) disk
                  ∙ slice-put_at w.offset payload (laws.disk c.storage) inside in
                inl (
                  ap out after2
                  ∙ read_back
                  ∙ ap
                      (λ x.
                        x
                        ++ (reply_bytes r.handle 0
                            ++ slice (r.offset / 512 * 512) r.length (laws.disk c1'.storage)))
                      wrote
                  ∙ ap
                      (λ x.
                        (writes.written c.output ++ reply_bytes w.handle 0)
                        ++ (reply_bytes r.handle 0 ++ x))
                      same)
          ]
        ]
