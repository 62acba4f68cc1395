-- ===== src/Nbd/Server/Requests.antt =====
-- Reads and writes of a client, on a device that keeps `StorageLaws`.
use vo_e.Common.{
  ℕ, ◌+◌, ◌*◌, ◌/◌, ◌%◌, ◌^◌, ◌≤◌, ◌≡◌, ◌⊎◌, inl, inr, refl, ap, ◌∙◌, arith, Bytes, be32, be64,
  false, ltb, take, drop, take-take, append-nil, ok, Outcome-cases, [], ◌++◌,
}
use vo_e.Common.Io.{pure, ◌>>◌}
use vo_e.Common.Stream.{Reader, Writer, ReaderLaws, WriterLaws, Adds, >>-Adds, flush-Adds}
use vo_e.Storage.{BlockStorage}
use vo_e.Storage.Laws.{slice, StorageLaws}
use vo_e.Nbd.Protocol.{NbdRequest, new_reply, write_reply, Connection}
use vo_e.Nbd.Server.{eio, request_lba, request_sectors, send_data, send_reply, handle_read}

-- The bytes of a reply's header.
abbrev pub reply_bytes : ℕ → ℕ → Bytes
reply_bytes handle error = be32 0x67446698 ++ (be32 error ++ be64 handle)

module _ {W : Type 0} (writer : Writer W) (laws : WriterLaws writer) where
  write_reply-Adds :
      (handle error : ℕ)
      → Adds writer laws (write_reply writer (new_reply handle error)) (reply_bytes handle error)
  unfolding write_reply
  write_reply-Adds handle error =
      >>-Adds writer laws _ _ (be32 0x67446698) (be32 error ++ be64 handle)
        (laws.write_all_ok (be32 0x67446698))
        (>>-Adds writer laws _ _ (be32 error) (be64 handle) (laws.write_all_ok (be32 error))
          (laws.write_all_ok (be64 handle)))

  pub send_reply-Adds :
      (q : NbdRequest) (error : ℕ)
      → Adds writer laws (send_reply writer q error) (reply_bytes q.handle error)
  unfolding send_reply
  send_reply-Adds q error w h =
      >>-Adds writer laws (write_reply writer (new_reply q.handle error)) writer.flush
        (reply_bytes q.handle error) [] (write_reply-Adds q.handle error) (flush-Adds writer laws) w
        h
      ∙ ap (λ x. laws.written w ++ x) (append-nil (reply_bytes q.handle error))

  -- A reply without an error is followed by the data, one with an error by none.
  pub send_data-Adds :
      (q : NbdRequest) (contents : Bytes)
      → Adds writer laws (send_data writer q 0 contents) (reply_bytes q.handle 0 ++ contents)
  unfolding send_data
  send_data-Adds q contents w h =
      >>-Adds writer laws (write_reply writer (new_reply q.handle 0))
        (writer.write_all contents >> writer.flush) (reply_bytes q.handle 0) (contents ++ [])
        (write_reply-Adds q.handle 0)
        (>>-Adds writer laws (writer.write_all contents) writer.flush contents []
          (laws.write_all_ok contents) (flush-Adds writer laws))
        w h
      ∙ ap (λ x. laws.written w ++ (reply_bytes q.handle 0 ++ x)) (append-nil contents)

  pub send_error-Adds :
      (q : NbdRequest) (contents : Bytes)
      → Adds writer laws (send_data writer q eio contents) (reply_bytes q.handle eio)
  unfolding send_data send_reply
  send_error-Adds q contents w h =
      >>-Adds writer laws (write_reply writer (new_reply q.handle eio)) (pure tt >> writer.flush)
        (reply_bytes q.handle eio) [] (write_reply-Adds q.handle eio) (flush-Adds writer laws) w h
      ∙ ap (λ x. laws.written w ++ x) (append-nil (reply_bytes q.handle eio))

module _ {R W S : Type 0} (reader : Reader R) (reads : ReaderLaws reader) (writer : Writer W)
    (writes : WriterLaws writer) (device : BlockStorage S) (laws : StorageLaws device) where
  -- What a read adds to the output.
  abbrev pub ReadReply : NbdRequest → Connection R W S → Connection R W S → Type 0
  ReadReply q c c' =
      (writes.written c'.output
        ≡ writes.written c.output
          ++ (reply_bytes q.handle 0
              ++ slice (q.offset / 512 * 512) q.length (laws.disk c.storage)))
      ⊎ (writes.written c'.output ≡ writes.written c.output ++ reply_bytes q.handle eio)

  pub handle_read-sent :
      (q : NbdRequest) (c : Connection R W S)
      → laws.IsReady c.storage
      → request_sectors q ≤ 255
      → request_lba q + request_sectors q ≤ (device.info c.storage).total_sectors
      → let done = handle_read reader writer device q c in
        (done.0 ≡ ok tt → ReadReply q c done.1)
        × laws.IsReady done.1.storage
        × (laws.disk done.1.storage ≡ laws.disk c.storage)
        × (device.info done.1.storage ≡ device.info c.storage)
        × (done.1.input ≡ c.input)
  unfolding handle_read
  handle_read-sent q c ready few fits =
      let n = request_sectors q in
      let under : ltb 255 n ≡ false = ground (arith, few) in
      let whole : n % 2 ^ 8 ≡ n = omega (arith, few) in
      let (ready', disk, info) = laws.read_keeps (request_lba q) n c.storage ready fits in
      let s' = (device.read (request_lba q) n c.storage).1 in
      rw (under, whole)
        (elim (Outcome-cases (device.read (request_lba q) n c.storage).0) [
          | inl (d, got) ↦
              let asked : take q.length d
                  ≡ slice (q.offset / 512 * 512) q.length (laws.disk c.storage) =
                ap (take q.length) (laws.read_ok (request_lba q) n c.storage d ready fits got)
                ∙ take-take q.length (n * 512) (drop (q.offset / 512 * 512) (laws.disk c.storage))
                    (let m : q.length ≤ n * 512 = omega arith in m) in
              rw got (
                λ sent. inl (
                    send_data-Adds writer writes q (take q.length d) c.output sent
                    ∙ ap (λ x. writes.written c.output ++ (reply_bytes q.handle 0 ++ x)) asked),
                ready',
                disk,
                info,
                refl,
              )
          | inr (k, failed) ↦ rw failed (
            λ sent. inr (send_error-Adds writer writes q (take q.length []) c.output sent),
            ready',
            disk,
            info,
            refl,
          )
        ])
