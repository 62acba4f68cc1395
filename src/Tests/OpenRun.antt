-- ===== src/Tests/OpenRun.antt =====
-- A `FileBackend` made on a file that is shorter than its size.
use vo_e.Common.{
  ℕ, ◌/◌, ◌≡◌, refl, arith, Bytes, codes, true, length-append, length-take, length-replicate,
  replicate, ◌++◌, Outcome, ok, ErrorKind,
}
use vo_e.Storage.File.{FileBackend}
use vo_e.Storage.File.Laws.{IsReady}
use vo_e.Storage.File.Open.{OpenOptions, LengthLaws, open_or_create, open_or_create-IsReady}
use vo_e.Tests.DeviceRun.{MemoryFile, memory_file, memory_file_laws}

memory_lengths : LengthLaws memory_file memory_file_laws
unfolding memory_file_laws
memory_lengths = record {
  metadata_len_ok = λ f n h. ground (arith, h);
  set_len_ok = λ n f h. omega (
    arith,
    length-take n (f.content ++ replicate n 0),
    length-append f.content (replicate n 0),
    length-replicate {A = ℕ} n 0,
  );
}

-- One sector is there.
abbrev open_path : OpenOptions → Bytes → Outcome ErrorKind MemoryFile
open_path options path = ok (record { content = replicate 512 7; position = 0 })

abbrev serial_of : Bytes → Bytes
serial_of path = path

abbrev three_sectors : FileBackend MemoryFile
three_sectors = record {
  file = record { content = replicate 512 7 ++ replicate 1024 0; position = 0 };
  info = record {
    model = codes "AoE File Backend";
    serial = codes "/disk";
    firmware = codes "0.1.0";
    total_sectors = 3;
    sector_size = 512;
    lba48 = true;
  };
}

made :
    open_or_create memory_file open_path serial_of (codes "0.1.0") (codes "/disk") 1536
    ≡ ok three_sectors
unfolding open_or_create
made = refl

open_or_create-IsReady_example :
    IsReady memory_file memory_file_laws three_sectors
    × (three_sectors.info.total_sectors ≡ 1536 / 512)
open_or_create-IsReady_example =
    open_or_create-IsReady memory_file memory_file_laws memory_lengths open_path serial_of
      (codes "0.1.0") (codes "/disk") 1536 three_sectors (omega arith) made
