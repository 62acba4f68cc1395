-- ===== src/Nbd/Protocol.antt =====
-- src/nbd/protocol.rs: requests, replies and the handshake. A connection has an input, an output and
-- the device that is served.
use vo_e.Common.{
  ℕ, be16, be32, be64, bit_and, bit_or, if◌then◌else◌, ◌==◌, replicate, Option, none, some,
  ErrorKind, invalid_data, connection_aborted,
}
use vo_e.Common.Io.{Io, pure, fail, ◌>>=◌, ◌>>◌}
use vo_e.Common.Loop.{Turn}
use vo_e.Common.Stream.{Reader, Writer, read_u32, read_u64}

abbrev pub nbd_magic : ℕ
nbd_magic = 0x4e42444d41474943

abbrev pub nbd_opts_magic : ℕ
nbd_opts_magic = 0x49484156454F5054

abbrev pub nbd_opt_reply_magic : ℕ
nbd_opt_reply_magic = 0x3e889045565a9

abbrev pub nbd_request_magic : ℕ
nbd_request_magic = 0x25609513

abbrev pub nbd_simple_reply_magic : ℕ
nbd_simple_reply_magic = 0x67446698

abbrev pub nbd_flag_fixed_newstyle : ℕ
nbd_flag_fixed_newstyle = 1

abbrev pub nbd_flag_no_zeroes : ℕ
nbd_flag_no_zeroes = 2

abbrev pub nbd_flag_c_no_zeroes : ℕ
nbd_flag_c_no_zeroes = 2

abbrev pub nbd_opt_export_name : ℕ
nbd_opt_export_name = 1

abbrev pub nbd_opt_abort : ℕ
nbd_opt_abort = 2

abbrev pub nbd_rep_err_unsup : ℕ
nbd_rep_err_unsup = 0x80000001

abbrev pub nbd_flag_has_flags : ℕ
nbd_flag_has_flags = 1

abbrev pub nbd_flag_send_flush : ℕ
nbd_flag_send_flush = 4

pub data NbdCommand : Type 0 where
  read write disc flush trim write_zeroes : NbdCommand

-- `NbdCommand::from_u32`
unfoldable pub from_u32 : ℕ → Option NbdCommand
from_u32 val =
    if val == 0
    then some read
    else if val == 1
    then some write
    else if val == 2
    then some disc
    else if val == 3
    then some flush
    else if val == 4
    then some trim
    else if val == 6
    then some write_zeroes
    else none

pub record NbdRequest : Type 0 where
  pub magic : ℕ
  pub command : ℕ
  pub handle : ℕ
  pub offset : ℕ
  pub length : ℕ

unfoldable pub command_type : NbdRequest → Option NbdCommand
unfolding from_u32
command_type request = from_u32 (bit_and request.command 0xffff)

-- `NbdRequest::read`
unfoldable pub read_request : {R : Type 0} → Reader R → Io R ErrorKind NbdRequest
read_request reader = do
  magic ← read_u32 reader
  (if magic == nbd_request_magic then pure tt else fail invalid_data)
  command ← read_u32 reader
  handle ← read_u64 reader
  offset ← read_u64 reader
  length ← read_u32 reader
  pure (record {
    magic = magic;
    command = command;
    handle = handle;
    offset = offset;
    length = length;
  })

pub record NbdReply : Type 0 where
  pub magic : ℕ
  pub error : ℕ
  pub handle : ℕ

abbrev pub new_reply : ℕ → ℕ → NbdReply
new_reply handle error = record { magic = nbd_simple_reply_magic; error = error; handle = handle }

-- `NbdReply::write`
unfoldable pub write_reply : {W : Type 0} → Writer W → NbdReply → Io W ErrorKind (Unit {0})
write_reply writer reply = do
  writer.write_all (be32 reply.magic)
  writer.write_all (be32 reply.error)
  writer.write_all (be64 reply.handle)

abbrev send_handshake_oldstyle : {W : Type 0} → Writer W → ℕ → ℕ → Io W ErrorKind (Unit {0})
send_handshake_oldstyle writer size flags = do
  writer.write_all (be64 nbd_magic)
  writer.write_all (be64 0x00420281861253)
  writer.write_all (be64 size)
  writer.write_all (be16 flags)
  writer.write_all (replicate 124 0)
  writer.flush

-- The two ends of a connection, and the device behind it.
pub record Connection (R W S : Type 0) : Type 0 where
  pub input : R
  pub output : W
  pub storage : S

module _ {R W S : Type 0} where
  abbrev pub on_input : {E A : Type 0} → Io R E A → Io (Connection R W S) E A
  on_input m c = let (r, x) = m c.input in (r, record c { input = x })

  abbrev pub on_output : {E A : Type 0} → Io W E A → Io (Connection R W S) E A
  on_output m c = let (r, x) = m c.output in (r, record c { output = x })

module _ {W : Type 0} (writer : Writer W) where
  -- The first writes of `send_newstyle_handshake`
  unfoldable pub greeting : Io W ErrorKind (Unit {0})
  greeting = do
    writer.write_all (be64 nbd_magic)
    writer.write_all (be64 nbd_opts_magic)
    writer.write_all (be16 (bit_or nbd_flag_fixed_newstyle nbd_flag_no_zeroes))
    writer.flush

  unfoldable pub export_info : ℕ → ℕ → ℕ → Io W ErrorKind (Unit {0})
  export_info size trans_flags client_flags = do
    writer.write_all (be64 size)
    writer.write_all (be16 trans_flags)
    (let padded = bit_and client_flags nbd_flag_c_no_zeroes == 0 in
        if padded then writer.write_all (replicate 124 0) else pure tt)
    writer.flush

  unfoldable pub unsupported_reply : ℕ → Io W ErrorKind (Unit {0})
  unsupported_reply option = do
    writer.write_all (be64 nbd_opt_reply_magic)
    writer.write_all (be32 option)
    writer.write_all (be32 nbd_rep_err_unsup)
    writer.write_all (be32 0)
    writer.flush

module _ {R W S : Type 0} (reader : Reader R) (writer : Writer W) where
  unfoldable pub greet : Io (Connection R W S) ErrorKind ℕ
  unfolding greeting
  greet = do on_output (greeting writer); on_input (read_u32 reader)

  -- NBD_OPT_EXPORT_NAME: the name is ignored.
  unfoldable pub export_name : ℕ → ℕ → ℕ → ℕ → Io (Connection R W S) ErrorKind (Unit {0})
  unfolding export_info
  export_name size trans_flags client_flags option_len = do
    on_input (reader.read_exact option_len)
    on_output (export_info writer size trans_flags client_flags)

  -- An option without support: its data is skipped.
  unfoldable pub unsupported : ℕ → ℕ → Io (Connection R W S) ErrorKind (Unit {0})
  unfolding unsupported_reply
  unsupported option option_len = do
    on_input (reader.read_exact option_len)
    on_output (unsupported_reply writer option)

  abbrev pub then_turn :
      Io (Connection R W S) ErrorKind (Unit {0}) → Turn → Io (Connection R W S) ErrorKind Turn
  then_turn m t = m >>= λ _. pure t

  -- One round of its loop.
  unfoldable pub negotiate : ℕ → ℕ → ℕ → Io (Connection R W S) ErrorKind Turn
  unfolding export_name unsupported
  negotiate size trans_flags client_flags = do
    opts_magic ← on_input (read_u64 reader)
    (if opts_magic == nbd_opts_magic then pure tt else fail invalid_data)
    option ← on_input (read_u32 reader)
    option_len ← on_input (read_u32 reader)
    if option == nbd_opt_export_name
        then then_turn (export_name size trans_flags client_flags option_len) Turn.returns
        else if option == nbd_opt_abort
        then fail connection_aborted
        else then_turn (unsupported option option_len) Turn.goes_on
