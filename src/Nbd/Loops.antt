-- ===== src/Nbd/Loops.antt =====
-- Reading a request takes bytes of the input.
use vo_e.Common.{ℕ, ◌≤◌, ◌<◌, ◌≡◌, arith, ◌==◌, if◌then◌else◌, ok, ErrorKind, invalid_data}
use vo_e.Common.Io.{Io, pure, fail, ◌>>=◌, ◌>>◌}
use vo_e.Common.Loop.{>>=_shrinks, >>=_shrinks_ok}
use vo_e.Common.Stream.{
  Reader, ReaderLaws, read_u32, read_u64, left, read_u32_shrinks, read_u64_shrinks,
  read_u32_shrinks_ok, test_shrinks,
}
use vo_e.Nbd.Protocol.{NbdRequest, nbd_request_magic, read_request}

module _ {R : Type 0} (reader : Reader R) (laws : ReaderLaws reader) where
  abbrev after_magic : ℕ → Io R ErrorKind NbdRequest
  after_magic magic = do
    (if magic == nbd_request_magic then pure tt else fail invalid_data)
    command ← read_u32 reader
    handle ← read_u64 reader
    offset ← read_u64 reader
    length ← read_u32 reader
    pure (record {
      magic = magic;
      command = command;
      handle = handle;
      offset = offset;
      length = length;
    })

  after_magic_shrinks :
      (magic : ℕ) (r : R) → left reader laws (after_magic magic r).1 ≤ left reader laws r
  after_magic_shrinks magic =
      >>=_shrinks (left reader laws)
        (if magic == nbd_request_magic then pure tt else fail invalid_data) _
        (test_shrinks reader laws (left reader laws) (magic == nbd_request_magic) invalid_data)
        (λ _.
          >>=_shrinks (left reader laws) (read_u32 reader) _ (read_u32_shrinks reader laws)
            (λ command.
              >>=_shrinks (left reader laws) (read_u64 reader) _ (read_u64_shrinks reader laws)
                (λ handle.
                  >>=_shrinks (left reader laws) (read_u64 reader) _ (read_u64_shrinks reader laws)
                    (λ offset.
                      >>=_shrinks (left reader laws) (read_u32 reader) _
                        (read_u32_shrinks reader laws) (λ n r. omega arith)))))

  pub read_request_shrinks :
      (r : R) → (left reader laws) (read_request reader r).1 ≤ left reader laws r
  unfolding read_request
  read_request_shrinks =
      >>=_shrinks (left reader laws) (read_u32 reader) after_magic (read_u32_shrinks reader laws)
        after_magic_shrinks

  -- A request that was read has taken bytes.
  pub read_request_shrinks_ok :
      (r : R) (q : NbdRequest)
      → (read_request reader r).0 ≡ ok q
      → (left reader laws) (read_request reader r).1 < left reader laws r
  unfolding read_request
  read_request_shrinks_ok =
      >>=_shrinks_ok (left reader laws) (read_u32 reader) after_magic
        (read_u32_shrinks_ok reader laws) after_magic_shrinks
