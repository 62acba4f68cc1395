-- ===== src/Cas.antt =====
-- src/cas/protocol.rs: the frames of the CAS service. The two ends of a connection, `Read` and
-- `Write` of the standard library, are parameters.
pub mod Frames
pub mod Storage
pub mod Server
pub mod Connection
pub mod Client
use vo_e.Common.{
  ℕ, ◌+◌, ◌%◌, ◌^◌, Bytes, Bool, true, false, if◌then◌else◌, ltb, ◌==◌, length, get_or, le32,
  from_le32, [], ◌∷◌, Outcome, ok, err, ErrorKind, invalid_data,
}
use vo_e.Common.Io.{Io, pure, lift, ◌>>=◌, ◌>>◌}
use vo_e.Common.Stream.{Reader, Writer}

pub data CasCommand : Type 0 where
  write read exists ping delete : CasCommand

-- `TryFrom<u8>` and `as u8`
unfoldable pub cas_command : ℕ → Outcome ErrorKind CasCommand
cas_command value =
    if value == 1
    then ok write
    else if value == 2
    then ok read
    else if value == 3
    then ok exists
    else if value == 4
    then ok ping
    else if value == 5
    then ok delete
    else err invalid_data

unfoldable pub cas_command_code : CasCommand → ℕ
cas_command_code write = 1
cas_command_code read = 2
cas_command_code exists = 3
cas_command_code ping = 4
cas_command_code delete = 5

-- A message is its UTF-8 bytes.
pub data CasResponse : Type 0 where
  hash_response data_response : Bytes → CasResponse
  exists_response deleted_response : Bool → CasResponse
  pong : CasResponse
  error_message : Bytes → CasResponse

module _ {R : Type 0} (reader : Reader R) where
  unfoldable pub read_frame : Io R ErrorKind (CasCommand × Bytes)
  unfolding cas_command
  read_frame = do
    cmd_buf ← reader.read_exact 1
    command ← lift (cas_command (get_or cmd_buf 0 0))
    len_buf ← reader.read_exact 4
    let n =
        from_le32 (get_or len_buf 0 0) (get_or len_buf 1 0) (get_or len_buf 2 0)
          (get_or len_buf 3 0)
    contents ← (if ltb 0 n then reader.read_exact n else pure [])
    pure (command, contents)

abbrev pub bool_byte : Bool → ℕ
bool_byte true = 1
bool_byte false = 0

abbrev pub is_empty : Bytes → Bool
is_empty [] = true
is_empty (x ∷ xs) = false

module _ {W : Type 0} (writer : Writer W) where
  unfoldable pub write_frame : CasCommand → Bytes → Io W ErrorKind (Unit {0})
  unfolding cas_command_code
  write_frame command contents = do
    writer.write_all (cas_command_code command ∷ [])
    writer.write_all (le32 (length contents % 2 ^ 32))
    (if is_empty contents then pure tt else writer.write_all contents)
    writer.flush

  unfoldable pub write_response : CasResponse → Io W ErrorKind (Unit {0})
  unfolding write_frame
  write_response (hash_response hash) = write_frame write hash
  write_response (data_response contents) = write_frame read contents
  write_response (exists_response found) = write_frame exists (bool_byte found ∷ [])
  write_response pong = write_frame ping []
  write_response (deleted_response deleted) = write_frame delete (bool_byte deleted ∷ [])
  write_response (error_message msg) = do
    writer.write_all (0xff ∷ [])
    writer.write_all (le32 (length msg % 2 ^ 32))
    writer.write_all msg
    writer.flush
