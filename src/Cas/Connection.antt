-- ===== src/Cas/Connection.antt =====
-- src/cas/server.rs: `handle_client`, the loop over the frames of a connection.
use vo_e.Common.{
  ℕ, ◌≤◌, ◌<◌, ◌≡◌, refl, ap, arith, Bytes, inl, inr, ltb, get_or, from_le32, if◌then◌else◌,
  Bool-cases, Option, some, [], Outcome, ok, err, Outcome-cases, ErrorKind, unexpected_eof, Bool,
  true, false,
}
use vo_e.Common.Io.{Io, pure, lift, ◌>>=◌, and_then-pure_state}
use vo_e.Common.Loop.{Turn, loop, loop-Ends, >>=_shrinks, >>=_shrinks_ok}
use vo_e.Common.Stream.{Reader, Writer, ReaderLaws, left, read_exact_shrinks, read_exact_shrinks_ok}
use vo_e.Blob.File.{Fs}
use vo_e.Cas.{CasCommand, cas_command, read_frame, write_response}
use vo_e.Cas.Server.{handle_command}

-- The two ends of a connection, and the disk.
pub record Connection (R W D : Type 0) : Type 0 where
  pub input : R
  pub output : W
  pub disk : D

abbrev pub is_eof : ErrorKind → Bool
is_eof unexpected_eof = true
is_eof other_error = false

module _ {R W D : Type 0} (reader : Reader R) (writer : Writer W) (hash_of : Bytes → Bytes)
    (hex_encode : Bytes → Bytes) (fs : Fs D) (describe : ErrorKind → Bytes) where
  -- The answer to one frame.
  abbrev pub answer_frame : CasCommand → Bytes → Io (Connection R W D) ErrorKind Turn
  answer_frame command contents c =
      let (response, disk) =
        handle_command hash_of hex_encode fs describe command contents c.disk in
      let (r, output) = write_response writer response c.output in
      (lift r >>= λ _. pure Turn.goes_on) (record c { output = output; disk = disk })

  abbrev pub on_frame :
      Outcome ErrorKind (CasCommand × Bytes) → Io (Connection R W D) ErrorKind Turn
  on_frame (ok (command, contents)) = answer_frame command contents
  on_frame (err e) = if is_eof e then pure Turn.returns else lift (err e)

  -- One round of the loop.
  unfoldable pub serve_frame : Io (Connection R W D) ErrorKind Turn
  unfolding read_frame write_response handle_command
  serve_frame c =
      let (r, input) = read_frame reader c.input in on_frame r (record c { input = input })

  -- On fuel: `none` when it runs out.
  unfoldable pub handle_client :
      ℕ → Connection R W D → Option (Outcome ErrorKind (Unit {0}) × Connection R W D)
  unfolding serve_frame loop
  handle_client fuel = loop fuel serve_frame

  module _ (laws : ReaderLaws reader) where
    abbrev pub left_of : Connection R W D → ℕ
    left_of c = left reader laws c.input

    contents_shrinks :
        (n : ℕ) (r : R)
        → left reader laws ((if ltb 0 n then reader.read_exact n else pure []) r).1
          ≤ left reader laws r
    contents_shrinks n r = elim (Bool-cases (ltb 0 n)) [
      | inl some_bytes ↦ rw some_bytes (read_exact_shrinks reader laws n r)
      | inr none_left ↦ rw none_left (omega arith)
    ]

    abbrev contents_of : CasCommand → ℕ → Io R ErrorKind (CasCommand × Bytes)
    contents_of command n = do
      contents ← (if ltb 0 n then reader.read_exact n else pure [])
      pure (command, contents)

    abbrev length_of : Bytes → ℕ
    length_of b = from_le32 (get_or b 0 0) (get_or b 1 0) (get_or b 2 0) (get_or b 3 0)

    abbrev after_code : Bytes → Io R ErrorKind (CasCommand × Bytes)
    after_code cmd_buf = do
      command ← lift (cas_command (get_or cmd_buf 0 0))
      len_buf ← reader.read_exact 4
      contents_of command (length_of len_buf)

    contents_of_shrinks :
        (command : CasCommand) (n : ℕ) (r : R)
        → left reader laws (contents_of command n r).1 ≤ left reader laws r
    contents_of_shrinks command n =
        >>=_shrinks (left reader laws) (if ltb 0 n then reader.read_exact n else pure [])
          (λ contents. pure (command, contents)) (contents_shrinks n) (λ contents r. omega arith)

    after_code_shrinks :
        (cmd_buf : Bytes) (r : R) → left reader laws (after_code cmd_buf r).1 ≤ left reader laws r
    after_code_shrinks cmd_buf =
        >>=_shrinks (left reader laws) (lift (cas_command (get_or cmd_buf 0 0))) _
          (λ r. omega arith)
          (λ command.
            >>=_shrinks (left reader laws) (reader.read_exact 4)
              (λ len_buf. contents_of command (length_of len_buf))
              (read_exact_shrinks reader laws 4)
              (λ len_buf. contents_of_shrinks command (length_of len_buf)))

    read_frame_shrinks : (r : R) → left reader laws (read_frame reader r).1 ≤ left reader laws r
    unfolding read_frame
    read_frame_shrinks =
        >>=_shrinks (left reader laws) (reader.read_exact 1) after_code
          (read_exact_shrinks reader laws 1) after_code_shrinks

    read_frame_shrinks_ok :
        (r : R) (f : CasCommand × Bytes)
        → (read_frame reader r).0 ≡ ok f
        → left reader laws (read_frame reader r).1 < left reader laws r
    unfolding read_frame
    read_frame_shrinks_ok =
        >>=_shrinks_ok (left reader laws) (reader.read_exact 1) after_code
          (λ r d. read_exact_shrinks_ok reader laws 1 r d (omega arith)) after_code_shrinks

    answer_frame-input :
        (command : CasCommand) (contents : Bytes) (c : Connection R W D)
        → (answer_frame command contents c).1.input ≡ c.input
    answer_frame-input command contents c =
        let m = handle_command hash_of hex_encode fs describe command contents c.disk in
        let w = write_response writer m.0 c.output in
        ap (λ (x : Connection R W D). x.input)
          (and_then-pure_state w.0 Turn.goes_on (record c { output = w.1; disk = m.1 }))

    not-goes_on :
        (c : Connection R W D) (k : ErrorKind)
        → (read_frame reader c.input).0 ≡ err k
        → (serve_frame c).0 ≡ ok Turn.goes_on
        → ⊥
    unfolding serve_frame
    not-goes_on c k e h = elim (Bool-cases (is_eof k)) [
      | inl eof ↦
          (let bad : ◌≡◌ {A = Outcome ErrorKind Turn} (ok Turn.returns) (ok Turn.goes_on) =
              rw (e, eof) at h in
            cc)
      | inr other_kind ↦
          (let bad : ◌≡◌ {A = Outcome ErrorKind Turn} (err k) (ok Turn.goes_on) =
              rw (e, other_kind) at h in
            cc)
    ]

    serve_frame-input :
        (c : Connection R W D) → (serve_frame c).1.input ≡ (read_frame reader c.input).1
    unfolding serve_frame
    serve_frame-input c = elim (Outcome-cases (read_frame reader c.input).0) [
      | inl (f, e) ↦
          rw e (answer_frame-input f.0 f.1 (record c { input = (read_frame reader c.input).1 }))
      | inr (k, e) ↦ rw e (elim (Bool-cases (is_eof k)) [
        | inl eof ↦ rw eof refl
        | inr other_kind ↦ rw other_kind refl
      ])
    ]

    serve_frame_shrinks : (c : Connection R W D) → left_of (serve_frame c).1 ≤ left_of c
    serve_frame_shrinks c = rw (serve_frame-input c) (read_frame_shrinks c.input)

    serve_frame_shrinks_ok :
        (c : Connection R W D)
        → (serve_frame c).0 ≡ ok Turn.goes_on
        → left_of (serve_frame c).1 < left_of c
    serve_frame_shrinks_ok c h = elim (Outcome-cases (read_frame reader c.input).0) [
      | inl (f, e) ↦ rw (serve_frame-input c) (read_frame_shrinks_ok c.input f e)
      | inr (k, e) ↦ absurd (not-goes_on c k e h)
    ]

    -- With more fuel than the client sends bytes, `handle_client` returns, whatever the bytes are.
    pub handle_client-ends :
        (fuel : ℕ) (c : Connection R W D)
        → left_of c < fuel
        → (r : Outcome ErrorKind (Unit {0}) × Connection R W D) × (handle_client fuel c ≡ some r)
    unfolding handle_client
    handle_client-ends fuel c h =
        let (r, ends, _) =
          loop-Ends left_of serve_frame serve_frame_shrinks_ok serve_frame_shrinks fuel c h in
        (r, ends)
