-- ===== src/Common/Stream.antt =====
-- The two ends of a connection, `Read` and `Write` of the standard library: parameters of what uses
-- them, and what its documentation says of them. `byteorder`'s reads and writes are big-endian.
use Prim.Native.Nat.{ℕ, ◌≤◌, ◌<◌}
use mathlib.Core.Path.{◌≡◌, sym, ap, ◌∙◌}
use mathlib.Core.Bool.{Bool, true, false}
use vo_e.Common.Tests.{if◌then◌else◌}
use mathlib.Core.List.{[], ◌++◌, append-nil, append_assoc}
use native.Mathlib.Omega.{arith}
use native.Mathlib.Decide.{dec_le}
use vo_e.Common.Word.{Bytes, from_be32, from_be64}
use vo_e.Common.Lists.{
  length, take, drop, get_or, length-append, take-append, drop-append, length-drop,
}
use vo_e.Common.Results.{Outcome, ok, err, ErrorKind, unexpected_eof}
use vo_e.Common.Loop.{>>=_shrinks, >>=_shrinks_ok}
use vo_e.Common.Io.{Io, pure, fail, ◌>>◌, ◌>>=◌, >>-eq-ok}

-- `read_exact` takes the length of the buffer and returns its new contents.
pub record Reader (R : Type 0) : Type 0 where
  pub read_exact : ℕ → Io R ErrorKind Bytes

pub record Writer (W : Type 0) : Type 0 where
  pub write_all : Bytes → Io W ErrorKind (Unit {0})
  pub flush : Io W ErrorKind (Unit {0})

-- `byteorder`'s big-endian reads.
module _ {R : Type 0} (reader : Reader R) where
  abbrev pub read_u32 : Io R ErrorKind ℕ
  read_u32 = do
    b ← reader.read_exact 4
    pure (from_be32 (get_or b 0 0) (get_or b 1 0) (get_or b 2 0) (get_or b 3 0))

  abbrev pub read_u64 : Io R ErrorKind ℕ
  read_u64 = do
    b ← reader.read_exact 8
    pure (
        from_be64 (from_be32 (get_or b 0 0) (get_or b 1 0) (get_or b 2 0) (get_or b 3 0))
          (from_be32 (get_or b 4 0) (get_or b 5 0) (get_or b 6 0) (get_or b 7 0)))

-- A reader that has bytes to come gives the first of them, and `UnexpectedEof` when they are
-- too few.
pub record ReaderLaws {R : Type 0} (reader : Reader R) : Type 0 where
  pub pending : R → Bytes
  pub read_exact_ok :
      (n : ℕ) (r : R)
      → n ≤ length (pending r)
      → ((reader.read_exact n r).0 ≡ ok (take n (pending r)))
        × (pending (reader.read_exact n r).1 ≡ drop n (pending r))
  pub read_exact_eof :
      (n : ℕ) (r : R)
      → length (pending r) < n
      → ((reader.read_exact n r).0 ≡ err unexpected_eof)
        × (length (pending (reader.read_exact n r).1) ≤ length (pending r))

-- What a writer accepted comes after what was written before.
pub record WriterLaws {W : Type 0} (writer : Writer W) : Type 0 where
  pub written : W → Bytes
  pub write_all_ok :
      (d : Bytes) (w : W)
      → (writer.write_all d w).0 ≡ ok tt
      → written (writer.write_all d w).1 ≡ written w ++ d
  pub flush_keeps : (w : W) → written (writer.flush w).1 ≡ written w

module _ {R : Type 0} (reader : Reader R) (laws : ReaderLaws reader) where
  pub read_front :
      (n : ℕ) (xs rest : Bytes) (r : R)
      → laws.pending r ≡ xs ++ rest
      → length xs ≡ n
      → ((reader.read_exact n r).0 ≡ ok xs) × (laws.pending (reader.read_exact n r).1 ≡ rest)
  read_front n xs rest r h l =
      let enough : n ≤ length (laws.pending r) = rw h (omega (arith, l, length-append xs rest)) in
      let (got, left) = laws.read_exact_ok n r enough in
      (
        got ∙ ap ok (ap (take n) h ∙ take-append n xs rest l),
        left ∙ ap (drop n) h ∙ drop-append n xs rest l,
      )

module _ {W : Type 0} (writer : Writer W) (laws : WriterLaws writer) where
  -- What a call that returned has added.
  abbrev pub Adds : Io W ErrorKind (Unit {0}) → Bytes → Type 0
  Adds m d = (w : W) → (m w).0 ≡ ok tt → laws.written (m w).1 ≡ laws.written w ++ d

  pub >>-Adds :
      (m k : Io W ErrorKind (Unit {0})) (d e : Bytes) → Adds m d → Adds k e → Adds (m >> k) (d ++ e)
  >>-Adds m k d e first rest w h =
      let (done, done', same) = >>-eq-ok m k w h in
      ap (λ r. laws.written r.1) same
      ∙ rest (m w).1 done'
      ∙ ap (λ x. x ++ e) (first w done)
      ∙ append_assoc (laws.written w) d e

  pub flush-Adds : Adds writer.flush []
  flush-Adds w h = laws.flush_keeps w ∙ sym (append-nil (laws.written w))

-- No read gives bytes back, and a read of some bytes that returned has taken them.
module _ {R : Type 0} (reader : Reader R) (laws : ReaderLaws reader) where
  abbrev pub left : R → ℕ
  left r = length (laws.pending r)

  pub read_exact_shrinks : (n : ℕ) (r : R) → left (reader.read_exact n r).1 ≤ left r
  read_exact_shrinks n r = elim (dec_le n (left r)) [
    | yes enough ↦
        omega (arith, ap length (laws.read_exact_ok n r enough).1, length-drop n (laws.pending r))
    | no few ↦ (laws.read_exact_eof n r (omega (arith, few))).1
  ]

  pub read_exact_shrinks_ok :
      (n : ℕ) (r : R) (d : Bytes)
      → 0 < n
      → (reader.read_exact n r).0 ≡ ok d
      → left (reader.read_exact n r).1 < left r
  read_exact_shrinks_ok n r d some_bytes got = elim (dec_le n (left r)) [
    | yes enough ↦ omega (
      arith,
      enough,
      some_bytes,
      ap length (laws.read_exact_ok n r enough).1,
      length-drop n (laws.pending r),
    )
    | no few ↦
        let bad : ◌≡◌ {A = Outcome ErrorKind Bytes} (err _) (ok d) =
          sym (laws.read_exact_eof n r (omega (arith, few))).0 ∙ got in
        absurd cc
  ]

  pub read_u32_shrinks : (r : R) → left (read_u32 reader r).1 ≤ left r
  read_u32_shrinks =
      >>=_shrinks left (reader.read_exact 4) _ (read_exact_shrinks 4) (λ d r. omega arith)

  pub read_u64_shrinks : (r : R) → left (read_u64 reader r).1 ≤ left r
  read_u64_shrinks =
      >>=_shrinks left (reader.read_exact 8) _ (read_exact_shrinks 8) (λ d r. omega arith)

  pub read_u64_shrinks_ok :
      (r : R) (n : ℕ) → (read_u64 reader r).0 ≡ ok n → left (read_u64 reader r).1 < left r
  read_u64_shrinks_ok =
      >>=_shrinks_ok left (reader.read_exact 8) _ (λ r d. read_exact_shrinks_ok 8 r d (omega arith))
        (λ d r. omega arith)

  pub read_u32_shrinks_ok :
      (r : R) (n : ℕ) → (read_u32 reader r).0 ≡ ok n → left (read_u32 reader r).1 < left r
  read_u32_shrinks_ok =
      >>=_shrinks_ok left (reader.read_exact 4) _ (λ r d. read_exact_shrinks_ok 4 r d (omega arith))
        (λ d r. omega arith)

  -- A test that fails or goes on changes nothing.
  pub test_shrinks :
      {S E : Type 0} (size : S → ℕ) (t : Bool) (e : E) (s : S)
      → size ((if t then pure tt else fail {A = Unit {0}} e) s).1 ≤ size s
  test_shrinks size true e s = omega arith
  test_shrinks size false e s = omega arith
