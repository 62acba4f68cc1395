-- ===== src/Tests/NbdRun.antt =====
-- A client of the NBD server, on a `FileBackend` in memory.
use vo_e.Common.{
  ℕ, ◌^◌, ◌<◌, ◌≡◌, ◌≢◌, ◌⊎◌, refl, arith, Bytes, replicate, length, [], ◌∷◌, ◌++◌, some, Outcome,
  ok, err, ErrorKind,
}
use vo_e.Storage.{StorageError, validate_range}
use vo_e.Storage.Laws.{StorageLaws}
use vo_e.Storage.File.{FileBackend, on_file, read, write}
use vo_e.Storage.File.Laws.{file_backend_laws}
use vo_e.Tests.Streams.{source, source_laws, sink, sink_laws}
use vo_e.Tests.DeviceRun.{MemoryFile, memory_file, memory_file_laws, blank, device}
use vo_e.Nbd.Protocol.{
  NbdCommand, NbdRequest, from_u32, command_type, read_request, write_reply, Connection,
}
use vo_e.Common.Loop.{Turn}
use vo_e.Nbd.Server.{
  eio, filled, send_data, send_reply, handle_read, handle_write, serve, handle_client,
}
use vo_e.Nbd.Server.Requests.{reply_bytes}
use vo_e.Nbd.Requests.{FitsWords, request_bytes}
use vo_e.Nbd.Ends.{handle_client-returns}
use vo_e.Nbd.Session.{serve-write-read}

abbrev laws : StorageLaws device
laws = file_backend_laws memory_file memory_file_laws

-- 100 bytes from the second sector on
abbrev asked : ℕ → ℕ → NbdRequest
asked command handle = record {
  magic = 0x25609513;
  command = command;
  handle = handle;
  offset = 512;
  length = 100;
}

abbrev payload : Bytes
payload = replicate 100 7

abbrev client : Bytes → Connection Bytes Bytes (FileBackend MemoryFile)
client input = record { input = input; output = []; storage = blank }

abbrev before : Connection Bytes Bytes (FileBackend MemoryFile)
before = client (request_bytes (asked 1 9) ++ (payload ++ (request_bytes (asked 0 8) ++ [])))

blank-IsReady : laws.IsReady blank
unfolding file_backend_laws memory_file_laws
blank-IsReady = (refl, omega arith, omega arith)

words : (command handle : ℕ) → command < 2 ^ 32 → handle < 2 ^ 64 → FitsWords (asked command handle)
words command handle h k = (refl, h, k, omega arith, omega arith)

is_write : command_type (asked 1 9) ≡ some NbdCommand.write
unfolding command_type from_u32
is_write = refl

is_read : command_type (asked 0 8) ≡ some NbdCommand.read
unfolding command_type from_u32
is_read = refl

accepts :
    laws.Accepts 1
      (filled device (asked 1 9) payload blank).0
      (filled device (asked 1 9) payload blank).1
unfolding file_backend_laws
accepts = tt

reads_last : (k : StorageError) → (device.read 1 1 blank).0 ≢ err k
unfolding read on_file validate_range
reads_last k e =
    let bad : ◌≡◌ {A = Outcome StorageError Bytes} (ok (replicate 512 0)) (err k) = e in cc

start :
    source_laws.pending before.input
    ≡ request_bytes (asked 1 9) ++ (payload ++ (request_bytes (asked 0 8) ++ []))
unfolding source_laws
start = refl

few_bytes : length (source_laws.pending (0 ∷ 0 ∷ [])) < 5
unfolding source_laws
few_bytes = omega arith

first : (serve source sink device before).0 ≡ ok Turn.goes_on
unfolding serve read_request command_type from_u32 handle_write filled send_reply write_reply read
    write on_file validate_range
first = refl

second : (serve source sink device (serve source sink device before).1).0 ≡ ok Turn.goes_on
unfolding serve read_request command_type from_u32 handle_write handle_read filled send_reply
    send_data write_reply read write on_file validate_range
second = refl

serve-write-read_example :
    let c1 = (serve source sink device before).1 in
    ((serve source sink device c1).1.output
      ≡ ([] ++ reply_bytes 9 0) ++ (reply_bytes 8 0 ++ payload))
    ⊎ (c1.output ≡ [] ++ reply_bytes 9 eio)
    ⊎ ((serve source sink device c1).1.output ≡ c1.output ++ reply_bytes 8 eio)
unfolding sink_laws
serve-write-read_example =
    serve-write-read source source_laws sink sink_laws device laws (asked 1 9) (asked 0 8) payload
      [] before (words 1 9 (omega arith) (omega arith)) (words 0 8 (omega arith) (omega arith))
      is_write is_read refl refl start refl blank-IsReady refl (omega arith) (omega arith) accepts
      reads_last first second

handle_client-returns_example :
    (r : Outcome ErrorKind (Unit {0}) × Connection Bytes Bytes (FileBackend MemoryFile))
    × (handle_client source sink device 5 (client (0 ∷ 0 ∷ [])) ≡ some r)
handle_client-returns_example =
    handle_client-returns source source_laws sink device 5 (client (0 ∷ 0 ∷ [])) few_bytes
