-- ===== src/Nbd/Requests.antt =====
-- Requests as bytes.
use vo_e.Common.{
  ℕ, ◌+◌, ◌*◌, ◌/◌, ◌%◌, ◌^◌, ◌<◌, ◌≡◌, refl, ap, ◌∙◌, arith, Bytes, be32, be64, from_be32,
  from_be64, from_be32-be32, true, ◌==◌, ==_iff, ◌++◌, ok,
}
use vo_e.Common.Stream.{Reader, Writer, ReaderLaws, read_u32, read_u64, read_front}
use vo_e.Storage.{BlockStorage}
use vo_e.Nbd.Protocol.{NbdRequest, nbd_request_magic, command_type, read_request, Connection}
use vo_e.Nbd.Server.{dispatch, serve}

-- The fields are in their words.
abbrev pub FitsWords : NbdRequest → Type 0
FitsWords q =
    (q.magic ≡ nbd_request_magic)
    × (q.command < 2 ^ 32)
    × (q.handle < 2 ^ 64)
    × (q.offset < 2 ^ 64)
    × (q.length < 2 ^ 32)

-- What a client sends.
abbrev pub request_bytes : NbdRequest → Bytes
request_bytes q =
    be32 q.magic ++ (be32 q.command ++ (be64 q.handle ++ (be64 q.offset ++ be32 q.length)))

-- A word from its four bytes
abbrev of_be32 : ℕ → ℕ
of_be32 v = from_be32 (v / 2 ^ 24 % 256) (v / 2 ^ 16 % 256) (v / 256 % 256) (v % 256)

module _ {R : Type 0} (reader : Reader R) (laws : ReaderLaws reader) where
  pub read_u32_front :
      (v : ℕ) (rest : Bytes) (r : R)
      → v < 2 ^ 32
      → laws.pending r ≡ be32 v ++ rest
      → ((read_u32 reader r).0 ≡ ok v) × (laws.pending (read_u32 reader r).1 ≡ rest)
  read_u32_front v rest r small h =
      let (got, left) = read_front reader laws 4 (be32 v) rest r h refl in
      rw got (ap ok (from_be32-be32 v small), left)

  pub read_u64_front :
      (v : ℕ) (rest : Bytes) (r : R)
      → v < 2 ^ 64
      → laws.pending r ≡ be64 v ++ rest
      → ((read_u64 reader r).0 ≡ ok v) × (laws.pending (read_u64 reader r).1 ≡ rest)
  read_u64_front v rest r small h =
      let (got, left) = read_front reader laws 8 (be64 v) rest r h refl in
      let high = from_be32-be32 (v / 2 ^ 32) (omega (arith, small)) in
      let low = from_be32-be32 (v % 2 ^ 32) (omega arith) in
      let both : v / 2 ^ 32 * 2 ^ 32 + v % 2 ^ 32 ≡ v = omega arith in
      rw got (
        ap ok (
            ap (λ x. from_be64 x (of_be32 (v % 2 ^ 32))) high
            ∙ ap (λ x. from_be64 (v / 2 ^ 32) x) low
            ∙ both),
        left,
      )

  -- A request whose fields are in their words, with the right magic, is read as it was sent, and what
  -- follows it is left.
  pub read_request-request_bytes :
      (q : NbdRequest) (rest : Bytes) (r : R)
      → FitsWords q
      → laws.pending r ≡ request_bytes q ++ rest
      → ((read_request reader r).0 ≡ ok q) × (laws.pending (read_request reader r).1 ≡ rest)
  unfolding read_request
  read_request-request_bytes q rest r (magic, command, handle, offset, len) h =
      let (got1, left1) = read_u32_front q.magic _ r (omega (arith, magic)) h in
      let r1 = (read_u32 reader r).1 in
      let (got2, left2) = read_u32_front q.command _ r1 command left1 in
      let r2 = (read_u32 reader r1).1 in
      let (got3, left3) = read_u64_front q.handle _ r2 handle left2 in
      let r3 = (read_u64 reader r2).1 in
      let (got4, left4) = read_u64_front q.offset _ r3 offset left3 in
      let r4 = (read_u64 reader r3).1 in
      let (got5, left5) = read_u32_front q.length rest r4 len left4 in
      let tested : (q.magic == nbd_request_magic) ≡ true =
        (==_iff q.magic nbd_request_magic).1 magic in
      rw (got1, tested, got2, got3, got4, got5) (refl, left5)

-- A round of the loop on the bytes of a request.
module _ {R W S : Type 0} (reader : Reader R) (laws : ReaderLaws reader) (writer : Writer W)
    (device : BlockStorage S) where
  pub serve-eq-dispatch :
      (q : NbdRequest) (rest : Bytes) (c : Connection R W S)
      → FitsWords q
      → laws.pending c.input ≡ request_bytes q ++ rest
      → let input = (read_request reader c.input).1 in
        (serve reader writer device c
          ≡ dispatch reader writer device (command_type q) q (record c { input = input }))
        × (laws.pending input ≡ rest)
  unfolding serve
  serve-eq-dispatch q rest c words sent =
      let (got, left) = read_request-request_bytes reader laws q rest c.input words sent in
      (rw got refl, left)
