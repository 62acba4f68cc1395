-- ===== src/Cas/Frames.antt =====
-- A frame that was written is the frame that is read, and an error response is not read at all.
use vo_e.Common.{
  ℕ, ◌%◌, ◌^◌, ◌<◌, ◌≡◌, refl, sym, ap, ◌∙◌, arith, Bytes, Bool, true, false, if◌then◌else◌, ltb,
  lt→ltb, length, get_or, append-nil, le32, from_le32, from_be32-be32, [], ◌∷◌, ◌++◌, ok, err,
  ErrorKind, invalid_data,
}
use vo_e.Common.Io.{Io, pure, ◌>>◌}
use vo_e.Common.Stream.{
  Reader, Writer, ReaderLaws, WriterLaws, read_front, Adds, >>-Adds, flush-Adds,
}
use vo_e.Cas.{
  CasCommand, write, read, exists, ping, delete, cas_command, cas_command_code, CasResponse,
  hash_response, data_response, exists_response, deleted_response, pong, error_message, is_empty,
  bool_byte, read_frame, write_frame, write_response,
}

cas_command-cas_command_code : (c : CasCommand) → cas_command (cas_command_code c) ≡ ok c
unfolding cas_command cas_command_code
cas_command-cas_command_code write = refl
cas_command-cas_command_code read = refl
cas_command-cas_command_code exists = refl
cas_command-cas_command_code ping = refl
cas_command-cas_command_code delete = refl

-- The bytes of a frame.
abbrev pub frame_bytes : ℕ → Bytes → Bytes
frame_bytes code contents = code ∷ (le32 (length contents % 2 ^ 32) ++ contents)

module _ {R : Type 0} (reader : Reader R) (laws : ReaderLaws reader) where
  read_contents :
      (contents rest : Bytes) (r : R)
      → laws.pending r ≡ contents ++ rest
      → let m =
          (if ltb 0 (length contents) then reader.read_exact (length contents) else pure []) in
        ((m r).0 ≡ ok contents) × (laws.pending (m r).1 ≡ rest)
  read_contents [] rest r h = (refl, h)
  read_contents (x ∷ xs) rest r h =
      rw (lt→ltb 0 (length (x ∷ xs)) (omega arith))
        (read_front reader laws (length (x ∷ xs)) (x ∷ xs) rest r h refl)

  -- A frame of a known command is read to its last byte and no further.
  pub read_frame-frame_bytes :
      (c : CasCommand) (contents rest : Bytes) (r : R)
      → length contents < 2 ^ 32
      → laws.pending r ≡ frame_bytes (cas_command_code c) contents ++ rest
      → ((read_frame reader r).0 ≡ ok (c, contents)) × (laws.pending (read_frame reader r).1 ≡ rest)
  unfolding read_frame
  read_frame-frame_bytes c contents rest r small h =
      let n = length contents % 2 ^ 32 in
      let (got1, left1) =
        read_front reader laws 1 (cas_command_code c ∷ []) (le32 n ++ (contents ++ rest)) r h
          refl in
      let r1 = (reader.read_exact 1 r).1 in
      let (got2, left2) = read_front reader laws 4 (le32 n) (contents ++ rest) r1 left1 refl in
      let r2 = (reader.read_exact 4 r1).1 in
      let whole : from_le32 (get_or (le32 n) 0 0) (get_or (le32 n) 1 0) (get_or (le32 n) 2 0)
            (get_or (le32 n) 3 0)
          ≡ length contents =
        from_be32-be32 n (omega arith)
        ∙ (let e : n ≡ length contents = omega (arith, small) in e) in
      let (got3, left3) = read_contents contents rest r2 left2 in
      rw (got1, cas_command-cas_command_code c, got2, whole, got3) (refl, left3)

module _ {W : Type 0} (writer : Writer W) (laws : WriterLaws writer) where
  contents-Adds :
      (contents : Bytes)
      → Adds writer laws (if is_empty contents then pure tt else writer.write_all contents) contents
  contents-Adds [] w h = sym (append-nil (laws.written w))
  contents-Adds (x ∷ xs) w h = laws.write_all_ok (x ∷ xs) w h

  -- A code, the length of some contents, and a call that adds them.
  parts-Adds :
      (code : ℕ) (k : Io W ErrorKind (Unit {0})) (contents : Bytes)
      → Adds writer laws k contents
      → Adds writer laws
          (writer.write_all (code ∷ [])
            >> (writer.write_all (le32 (length contents % 2 ^ 32)) >> (k >> writer.flush)))
          (frame_bytes code contents)
  parts-Adds code k contents adds w h =
      let n = length contents % 2 ^ 32 in
      let later =
        >>-Adds writer laws (writer.write_all (le32 n)) (k >> writer.flush) (le32 n)
          (contents ++ []) (laws.write_all_ok (le32 n))
          (>>-Adds writer laws k writer.flush contents [] adds (flush-Adds writer laws)) in
      >>-Adds writer laws (writer.write_all (code ∷ []))
        (writer.write_all (le32 n) >> (k >> writer.flush)) (code ∷ []) (le32 n ++ (contents ++ []))
        (laws.write_all_ok (code ∷ [])) later w h
      ∙ ap (λ x. laws.written w ++ (code ∷ (le32 n ++ x))) (append-nil contents)

  pub written-write_frame :
      (c : CasCommand) (contents : Bytes)
      → Adds writer laws (write_frame writer c contents) (frame_bytes (cas_command_code c) contents)
  unfolding write_frame
  written-write_frame c contents w h =
      parts-Adds (cas_command_code c)
        (if is_empty contents then pure tt else writer.write_all contents) contents
        (contents-Adds contents) w h

  pub written-error_message :
      (msg : Bytes)
      → Adds writer laws (write_response writer (error_message msg)) (frame_bytes 0xff msg)
  unfolding write_response
  written-error_message msg w h =
      parts-Adds 0xff (writer.write_all msg) msg (laws.write_all_ok msg) w h

-- The frame of a response that is no error: the command that stands for it, and its contents.
abbrev pub response_frame : CasResponse → CasCommand × Bytes
response_frame (hash_response hash) = (write, hash)
response_frame (data_response contents) = (read, contents)
response_frame (exists_response found) = (exists, bool_byte found ∷ [])
response_frame (deleted_response deleted) = (delete, bool_byte deleted ∷ [])
response_frame pong = (ping, [])
response_frame (error_message msg) = (ping, [])

abbrev pub is_error : CasResponse → Bool
is_error (error_message msg) = true
is_error other_response = false

module _ {R W : Type 0} (reader : Reader R) (reads : ReaderLaws reader) (writer : Writer W)
    (writes : WriterLaws writer) where
  -- A frame of less than 2 ^ 32 bytes, written by a call that returned to a writer with nothing
  -- before it, is read as it was, and what follows it is left for the next read.
  pub read_frame-write_frame :
      (c : CasCommand) (contents rest : Bytes) (w : W) (r : R)
      → length contents < 2 ^ 32
      → writes.written w ≡ []
      → (write_frame writer c contents w).0 ≡ ok tt
      → reads.pending r ≡ writes.written (write_frame writer c contents w).1 ++ rest
      → ((read_frame reader r).0 ≡ ok (c, contents))
        × (reads.pending (read_frame reader r).1 ≡ rest)
  read_frame-write_frame c contents rest w r small none_before done h =
      read_frame-frame_bytes reader reads c contents rest r small (
        h
        ∙ ap (λ x. x ++ rest)
            (written-write_frame writer writes c contents w done
              ∙ ap (λ x. x ++ frame_bytes (cas_command_code c) contents) none_before))

  -- A response of less than 2 ^ 32 bytes that is no error, written in this way, is read back.
  pub read_frame-write_response :
      (response : CasResponse) (rest : Bytes) (w : W) (r : R)
      → is_error response ≡ false
      → length (response_frame response).1 < 2 ^ 32
      → writes.written w ≡ []
      → (write_response writer response w).0 ≡ ok tt
      → reads.pending r ≡ writes.written (write_response writer response w).1 ++ rest
      → ((read_frame reader r).0 ≡ ok (response_frame response))
        × (reads.pending (read_frame reader r).1 ≡ rest)
  unfolding write_response
  read_frame-write_response (hash_response hash) rest w r e small none_before done h =
      read_frame-write_frame write hash rest w r small none_before done h
  read_frame-write_response (data_response contents) rest w r e small none_before done h =
      read_frame-write_frame read contents rest w r small none_before done h
  read_frame-write_response (exists_response found) rest w r e small none_before done h =
      read_frame-write_frame exists (bool_byte found ∷ []) rest w r small none_before done h
  read_frame-write_response (deleted_response deleted) rest w r e small none_before done h =
      read_frame-write_frame delete (bool_byte deleted ∷ []) rest w r small none_before done h
  read_frame-write_response pong rest w r e small none_before done h =
      read_frame-write_frame ping [] rest w r small none_before done h
  read_frame-write_response (error_message msg) rest w r e small none_before done h = cc

  -- An error response, written in this way, is refused by the reader after its first byte: the
  -- length and the message are left, and the next read takes them for a frame.
  pub read_frame-error_message :
      (msg rest : Bytes) (w : W) (r : R)
      → writes.written w ≡ []
      → (write_response writer (error_message msg) w).0 ≡ ok tt
      → reads.pending r ≡ writes.written (write_response writer (error_message msg) w).1 ++ rest
      → ((read_frame reader r).0 ≡ err invalid_data)
        × (reads.pending (read_frame reader r).1 ≡ (le32 (length msg % 2 ^ 32) ++ msg) ++ rest)
  unfolding read_frame cas_command
  read_frame-error_message msg rest w r none_before done h =
      let n = length msg % 2 ^ 32 in
      let (got, left) =
        read_front reader reads 1 (0xff ∷ []) ((le32 n ++ msg) ++ rest) r
          (h
            ∙ ap (λ x. x ++ rest)
                (written-error_message writer writes msg w done
                  ∙ ap (λ x. x ++ frame_bytes 0xff msg) none_before))
          refl in
      rw got (refl, left)
