-- ===== src/Tests/ClientRun.antt =====
-- The CAS client with an answer in memory, and the CAS server's loop.
use vo_e.Common.{
  ℕ, ◌<◌, ◌≡◌, refl, arith, true, Bytes, codes, length, replicate, some, List, [], ◌∷◌, ◌++◌, le32,
  Outcome, ok, err, ErrorKind,
}
use vo_e.Common.Io.{pure}
use vo_e.Storage.{StorageError}
use vo_e.Blob.File.Memory.{Files, memory, no_files}
use vo_e.Cas.{CasCommand, hash_response, cas_command_code, write_frame, write_response}
use vo_e.Cas.Connection.{Connection, handle_client, handle_client-ends}
use vo_e.Cas.Client.{LbaIndex, IndexFile, Client, write_to_cas, write}
use vo_e.Cas.Client.Index.{write_to_cas-server_hash}
use vo_e.Tests.Streams.{source, source_laws, sink, sink_laws}

abbrev file : IndexFile (List LbaIndex)
file = record {
  create_dir_all = pure tt;
  create = λ f. (ok tt, []);
  to_writer_pretty = λ i f. (ok tt, i ∷ f);
}

abbrev describe : ErrorKind → Bytes
describe e = []

-- The answer to a write: a hash
abbrev answer : Bytes → Bytes
answer hash = 1 ∷ (le32 (length hash) ++ hash)

abbrev fives : ℕ → Bytes
fives n = replicate n 5

abbrev client : Bytes → Client Bytes Bytes (List LbaIndex)
client input = record {
  reader = input;
  writer = [];
  index = record { mappings = []; zero_block_hash = fives 32 };
  files = [];
  info = record {
    model = codes "CAS Virtual Disk";
    serial = codes "CAS001";
    firmware = codes "1.0";
    total_sectors = 8;
    sector_size = 512;
    lba48 = true;
  };
}

abbrev sevens : Bytes
sevens = replicate 512 7

answered : (write_response sink (hash_response (fives 16)) []).0 ≡ ok tt
unfolding write_response write_frame
answered = refl

arrived :
    source_laws.pending (client (answer (fives 16))).reader
    ≡ sink_laws.written (write_response sink (hash_response (fives 16)) []).1 ++ []
unfolding source_laws sink_laws write_response write_frame cas_command_code
arrived = refl

sent : (write_frame sink CasCommand.write sevens []).0 ≡ ok tt
unfolding write_frame
sent = refl

empty : sink_laws.written [] ≡ []
unfolding sink_laws
empty = refl

write_to_cas-server_hash_example :
    (write_to_cas source sink file describe sevens (client (answer (fives 16)))).0
    ≡ err (StorageError.backend (codes "invalid CAS write response"))
write_to_cas-server_hash_example =
    write_to_cas-server_hash source sink file describe source_laws sink sink_laws sevens (fives 16)
      [] [] (client (answer (fives 16))) refl empty answered arrived sent

-- A ping
abbrev pinging : Connection Bytes Bytes Files
pinging = record { input = 4 ∷ 0 ∷ 0 ∷ 0 ∷ 0 ∷ []; output = []; disk = no_files }

ping_length : length (source_laws.pending pinging.input) < 6
unfolding source_laws
ping_length = omega arith

handle_client-ends_example :
    (r : Outcome ErrorKind (Unit {0}) × Connection Bytes Bytes Files) × (handle_client source sink
        (λ x. x)
        (λ x. x)
        memory
        describe
        6
        pinging
      ≡ some r)
handle_client-ends_example =
    handle_client-ends source sink (λ x. x) (λ x. x) memory describe source_laws 6 pinging
      ping_length
