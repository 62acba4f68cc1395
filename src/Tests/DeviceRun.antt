-- ===== src/Tests/DeviceRun.antt =====
-- ATA commands on a `FileBackend` whose file is in memory.
use vo_e.Common.{
  ℕ, ◌+◌, ◌^◌, ◌≡◌, ◌≤◌, ◌≢◌, ◌⊎◌, refl, arith, true, false, ltb, if◌then◌else◌, Bytes, length,
  take, drop, replicate, length-replicate, length-append, length-take, length-drop, [], ◌∷◌, ◌++◌,
  Outcome, ok, err, ErrorKind, unexpected_eof,
}
use vo_e.Common.Io.{pure}
use vo_e.Protocol.Types.{AtaHeader, ata_command, lba48, error_unc}
use vo_e.Storage.{StorageError, DeviceInfo, BlockStorage, validate_range}
use vo_e.Storage.Laws.{slice, put_at, StorageLaws}
use vo_e.Storage.File.{FileHandle, FileBackend, file_backend, on_file, read, write}
use vo_e.Storage.File.Laws.{FileLaws, file_backend_laws, IsReady, write-read}
use vo_e.Ata.{
  handle_ata_command, run_command, handle_read, handle_write, request_start, request_count, success,
  success_with_data, error,
}
use vo_e.Ata.Access.{Access, handle_ata_command-Access}
use vo_e.Ata.Answers.{
  WriteAnswers, ReadAnswers, handle_write-WriteAnswers, handle_read-ReadAnswers, with_command,
  ata_write-read, ata_read-zero_count,
}

pub record MemoryFile : Type 0 where
  pub content : Bytes
  pub position : ℕ

abbrev pub memory_file : FileHandle MemoryFile
memory_file = record {
  seek = λ n f. (ok tt, record { content = f.content; position = n });
  read_exact = λ n f. if ltb (length f.content) (f.position + n) then (err unexpected_eof, f) else (
    ok (slice f.position n f.content),
    record { content = f.content; position = f.position + n },
  );
  write_all = λ d f.
      (ok tt, record { content = put_at f.position d f.content; position = f.position + length d });
  sync_all = pure tt;
  set_len = λ n f.
      (ok tt, record { content = take n (f.content ++ replicate n 0); position = f.position });
  metadata_len =
      λ f. if ltb (length f.content) (2 ^ 64) then ok (length f.content) else err ErrorKind.other;
}

pub length-put_at : (i : ℕ) (d x : Bytes) → length x ≤ length (put_at i d x)
length-put_at i d x = omega (
  arith,
  length-append (take i x) (d ++ drop (i + length d) x),
  length-append d (drop (i + length d) x),
  length-take i x,
  length-drop (i + length d) x,
)

pub memory_read_keeps :
    (n : ℕ) (f : MemoryFile) → (memory_file.read_exact n f).1.content ≡ f.content
memory_read_keeps n f = ground arith

pub memory_read_ok :
    (n : ℕ) (f : MemoryFile) (d : Bytes)
    → (memory_file.read_exact n f).0 ≡ ok d
    → d ≡ slice f.position n f.content
memory_read_ok n f d h = ground (arith, h)

unfoldable pub memory_file_laws : FileLaws memory_file
memory_file_laws = record {
  content = λ f. f.content;
  position = λ f. f.position;
  seek_keeps = λ n f. refl;
  seek_ok = λ n f h. refl;
  read_exact_keeps = memory_read_keeps;
  read_exact_ok = memory_read_ok;
  write_all_ok = λ d f h k. refl;
  write_all_length = λ d f. length-put_at f.position d f.content;
  sync_all_keeps = λ f. refl;
}

abbrev pub disk_info : DeviceInfo
disk_info = record {
  model = 86 ∷ [];
  serial = 48 ∷ 49 ∷ 50 ∷ [];
  firmware = 49 ∷ [];
  total_sectors = 3;
  sector_size = 512;
  lba48 = true;
}

abbrev pub blank : FileBackend MemoryFile
blank = record { file = record { content = replicate 1536 0; position = 0 }; info = disk_info }

abbrev pub device : BlockStorage (FileBackend MemoryFile)
device = file_backend memory_file

abbrev laws : StorageLaws device
laws = file_backend_laws memory_file memory_file_laws

abbrev sevens : Bytes
sevens = replicate 512 7

abbrev at_sector : ℕ → ℕ → AtaHeader
at_sector count lba = record {
  flags = record { extended = true; device = false; async_write = false; write = true };
  err_feature = 0;
  sector_count = count;
  cmd_status = 0x34;
  lba = lba;
}

blank-IsReady : laws.IsReady blank
unfolding file_backend_laws memory_file_laws
blank-IsReady = (refl, omega arith, omega arith)

abbrev zeros : Bytes
zeros = replicate 512 0

write_done : (write memory_file 1 sevens blank).0 ≡ ok tt
unfolding write on_file validate_range
write_done = refl

read_done :
    (read memory_file 0 3 (write memory_file 1 sevens blank).1).0 ≡ ok (zeros ++ (sevens ++ zeros))
unfolding read write on_file validate_range
read_done = refl

file-IsReady : IsReady memory_file memory_file_laws blank
unfolding memory_file_laws
file-IsReady = (refl, omega arith, omega arith)

write-read_example :
    zeros ++ (sevens ++ zeros)
    ≡ slice 0 1536 (put_at 512 sevens (memory_file_laws.content blank.file))
write-read_example =
    (write-read memory_file memory_file_laws blank 1 1 sevens file-IsReady (omega arith)
        (omega arith) refl write_done).1
      0 3 (zeros ++ (sevens ++ zeros)) (omega arith) read_done

handle_ata_command-Access_example :
    Access device blank (handle_ata_command device (at_sector 1 2) sevens blank).1
handle_ata_command-Access_example = handle_ata_command-Access device (at_sector 1 2) sevens blank

accepts : laws.Accepts (request_start (at_sector 1 2)) sevens blank
unfolding file_backend_laws
accepts = tt

handle_write-WriteAnswers_example :
    WriteAnswers device laws
      (at_sector 1 2)
      sevens
      blank
      (handle_write device (at_sector 1 2) sevens blank)
handle_write-WriteAnswers_example =
    (handle_write-WriteAnswers device laws (at_sector 1 2) sevens blank blank-IsReady accepts
      (omega arith)).0

handle_read-ReadAnswers_example :
    ReadAnswers device laws (at_sector 1 2) blank (handle_read device (at_sector 1 2) blank)
handle_read-ReadAnswers_example =
    (handle_read-ReadAnswers device laws (at_sector 1 2) blank blank-IsReady).0

written : (handle_ata_command device (with_command 0x34 (at_sector 1 2)) sevens blank).0 ≡ success
unfolding handle_ata_command run_command handle_write request_start request_count ata_command lba48
    write on_file validate_range
written = refl

abbrev after : FileBackend MemoryFile
after = (handle_ata_command device (with_command 0x34 (at_sector 1 2)) sevens blank).1

ata_write-read_example :
    ((handle_ata_command device (with_command 0x24 (at_sector 1 2)) [] after).0
      ≡ success_with_data sevens 1)
    ⊎ ((handle_ata_command device (with_command 0x24 (at_sector 1 2)) [] after).0 ≡ error error_unc)
ata_write-read_example =
    ata_write-read device laws (at_sector 1 2) sevens blank blank-IsReady accepts (omega arith)
      (omega arith) written

-- A device of 256 sectors.
abbrev tall : FileBackend MemoryFile
tall = record {
  file = record { content = replicate 131072 0; position = 0 };
  info = record disk_info { total_sectors = 256 };
}

tall-IsReady : laws.IsReady tall
unfolding file_backend_laws memory_file_laws
tall-IsReady = (
  refl,
  omega arith,
  let long : 131072 ≤ length (replicate {A = ℕ} 131072 0) =
        rw (length-replicate {A = ℕ} 131072 0) (omega arith) in
      long,
)

tall_start : request_start (with_command 0x24 (at_sector 0 0)) + 256 ≤ tall.info.total_sectors
unfolding request_start lba48
tall_start = omega arith

reads_none :
    (e : StorageError)
    → (device.read (request_start (with_command 0x24 (at_sector 0 0))) 0 tall).0 ≢ err e
unfolding request_start lba48 read on_file validate_range
reads_none e h = let bad : ◌≡◌ {A = Outcome StorageError Bytes} (ok []) (err e) = h in cc

ata_read-zero_count_example :
    (handle_ata_command device (with_command 0x24 (at_sector 0 0)) [] tall).0
    ≡ success_with_data [] 0
ata_read-zero_count_example =
    ata_read-zero_count device laws (at_sector 0 0) [] tall tall-IsReady refl tall_start reads_none
