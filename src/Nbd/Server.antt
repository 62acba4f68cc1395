-- ===== src/Nbd/Server.antt =====
-- src/nbd/server.rs: the requests of a client. The device's mutex is free whenever it is locked: the
-- clients' requests follow one another. An index or a copy that is out of bounds ends the source's
-- thread; here the slice is cut. A device that keeps `StorageLaws` gives whole sectors, with which
-- none is.
pub mod Requests
pub mod Writes
use vo_e.Common.{
  ℕ, ◌+◌, ◌-◌, ◌*◌, ◌/◌, ◌%◌, ◌^◌, Bytes, Bool, if◌then◌else◌, ltb, ◌==◌, bit_or, take, drop,
  replicate, length, Option, none, some, [], ◌++◌, Outcome, ok, err, ErrorKind,
}
use vo_e.Common.Io.{Io, pure, ◌>>=◌, ◌>>◌}
use vo_e.Common.Stream.{Reader, Writer}
use vo_e.Storage.{StorageError, BlockStorage}
use vo_e.Nbd.Protocol.{
  NbdCommand, read, write, disc, flush, trim, write_zeroes, NbdRequest, command_type, read_request,
  new_reply, write_reply, Connection, on_input, on_output, greet, negotiate, nbd_flag_has_flags,
  nbd_flag_send_flush,
}
use vo_e.Common.Loop.{Turn, loop}

abbrev pub sector_size : ℕ
sector_size = 512

-- Of Linux's C library
abbrev pub eio : ℕ
eio = 5

abbrev pub einval : ℕ
einval = 22

-- The result of a call of the device, its error as a number
abbrev pub error_of : {A : Type 0} → Outcome StorageError A → ℕ
error_of (ok a) = 0
error_of (err e) = eio

abbrev pub data_of : Outcome StorageError Bytes → Bytes
data_of (ok d) = d
data_of (err e) = []

abbrev pub request_lba : NbdRequest → ℕ
request_lba request = request.offset / sector_size

abbrev pub request_sectors : NbdRequest → ℕ
request_sectors request = (request.length + sector_size - 1) / sector_size

-- The last `copy_from_slice` of a partial sector: the device's bytes, or none.
abbrev pub fill_from : ℕ → Outcome StorageError Bytes → Bytes → Bytes
fill_from partial_bytes (ok last_sector) zeros = drop partial_bytes last_sector
fill_from partial_bytes (err e) zeros = zeros

module _ {S : Type 0} (device : BlockStorage S) where
  -- The data of a write, with the rest of a partial last sector.
  unfoldable pub filled : NbdRequest → Bytes → S → Bytes × S
  filled request payload s =
      let partial_bytes = request.length % sector_size in
      let zeros = replicate (request_sectors request * sector_size - request.length) 0 in
      let (last_sector, s') =
        device.read (request_lba request + (request_sectors request - 1)) 1 s in
      if partial_bytes == 0
      then (payload ++ zeros, s)
      else (payload ++ fill_from partial_bytes last_sector zeros, s')

module _ {W : Type 0} (writer : Writer W) where
  -- `reply.write(writer)?`, the data if there is no error, and a flush
  unfoldable pub send_data : NbdRequest → ℕ → Bytes → Io W ErrorKind (Unit {0})
  unfolding write_reply
  send_data request error contents = do
    write_reply writer (new_reply request.handle error)
    (if error == 0 then writer.write_all contents else pure tt)
    writer.flush

  unfoldable pub send_reply : NbdRequest → ℕ → Io W ErrorKind (Unit {0})
  unfolding write_reply
  send_reply request error = do write_reply writer (new_reply request.handle error); writer.flush

module _ {R W S : Type 0} (reader : Reader R) (writer : Writer W) (device : BlockStorage S) where
  abbrev pub reply : NbdRequest → ℕ → Io (Connection R W S) ErrorKind (Unit {0})
  reply request error = on_output (send_reply writer request error)

  -- A call of the device, whose error is a value here.
  abbrev pub on_device :
      {A : Type 0} → Io S StorageError A → Io (Connection R W S) ErrorKind (Outcome StorageError A)
  on_device m c = let (r, s) = m c.storage in (ok r, record c { storage = s })

  unfoldable pub handle_read : NbdRequest → Io (Connection R W S) ErrorKind (Unit {0})
  unfolding send_data send_reply
  handle_read request =
      let lba = request_lba request in
      let sector_count = request_sectors request in
      if ltb 255 sector_count then reply request einval else do
        result ← on_device (device.read lba (sector_count % 2 ^ 8))
        on_output
            (send_data writer request (error_of result) (take request.length (data_of result)))

  unfoldable pub handle_write : NbdRequest → Io (Connection R W S) ErrorKind (Unit {0})
  unfolding send_reply filled
  handle_write request =
      let lba = request_lba request in
      if ltb 255 (request_sectors request)
      then (do on_input (reader.read_exact request.length); reply request einval)
      else do
        payload ← on_input (reader.read_exact request.length)
        contents ← (λ c.
            let (d, s) = filled device request payload c.storage in
            (ok d, record c { storage = s }))
        result ← on_device (device.write lba contents)
        reply request (error_of result)

  unfoldable pub handle_flush : NbdRequest → Io (Connection R W S) ErrorKind (Unit {0})
  unfolding send_reply
  handle_flush request = do result ← on_device device.flush; reply request (error_of result)

  abbrev pub then_on :
      Io (Connection R W S) ErrorKind (Unit {0}) → Io (Connection R W S) ErrorKind Turn
  then_on m = m >>= λ _. pure Turn.goes_on

  abbrev pub dispatch : Option NbdCommand → NbdRequest → Io (Connection R W S) ErrorKind Turn
  dispatch (some read) request = then_on (handle_read request)
  dispatch (some write) request = then_on (handle_write request)
  dispatch (some flush) request = then_on (handle_flush request)
  dispatch (some disc) request = pure Turn.returns
  dispatch (some trim) request = then_on (reply request 0)
  dispatch (some write_zeroes) request = then_on (reply request einval)
  dispatch none request = then_on (reply request einval)

  -- A request that cannot be read ends the loop without an error.
  abbrev pub served : Outcome ErrorKind NbdRequest → Io (Connection R W S) ErrorKind Turn
  served (ok request) = dispatch (command_type request) request
  served (err e) = pure Turn.returns

  -- One round of the loop of `handle_client`.
  unfoldable pub serve : Io (Connection R W S) ErrorKind Turn
  unfolding read_request command_type handle_read handle_write handle_flush
  serve c = let (r, input) = read_request reader c.input in served r (record c { input = input })

  -- What follows the negotiation: the loop over the requests.
  unfoldable pub requests :
      ℕ
      → Option (Outcome ErrorKind (Unit {0}) × Connection R W S)
      → Option (Outcome ErrorKind (Unit {0}) × Connection R W S)
  unfolding serve
  requests fuel (some (ok done, c)) = loop fuel serve c
  requests fuel (some (err e, c)) = some (err e, c)
  requests fuel none = none

  -- What follows the greeting: the loop over the options.
  unfoldable pub shaken :
      ℕ
      → ℕ
      → ℕ
      → Outcome ErrorKind ℕ × Connection R W S
      → Option (Outcome ErrorKind (Unit {0}) × Connection R W S)
  unfolding negotiate loop
  shaken fuel size flags (ok client_flags, c) =
      loop fuel (negotiate reader writer size flags client_flags) c
  shaken fuel size flags (err e, c) = some (err e, c)

  -- `handle_client`, on fuel for each of its two loops.
  unfoldable pub handle_client :
      ℕ → Connection R W S → Option (Outcome ErrorKind (Unit {0}) × Connection R W S)
  unfolding greet requests shaken
  handle_client fuel c =
      let size_bytes = (device.info c.storage).total_sectors * sector_size % 2 ^ 64 in
      let flags = bit_or nbd_flag_has_flags nbd_flag_send_flush in
      requests fuel (shaken fuel size_bytes flags (greet reader writer c))
