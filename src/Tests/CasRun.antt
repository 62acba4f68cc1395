-- ===== src/Tests/CasRun.antt =====
-- The CAS service in memory: frames in a list of bytes, files in a function.
use vo_e.Common.{
  ◌≡◌, refl, arith, Bytes, take, replicate, [], ◌∷◌, ◌++◌, ok, err, ErrorKind, invalid_data,
}
use vo_e.Blob.File.Memory.{Files, memory, memory_laws, no_files, content-no_files}
use vo_e.Cas.{CasCommand, hash_response, data_response, read_frame, write_frame, write_response}
use vo_e.Tests.Streams.{source, source_laws, sink, sink_laws}
use vo_e.Cas.Frames.{read_frame-write_frame, read_frame-write_response, read_frame-error_message}
use vo_e.Cas.Storage
use vo_e.Cas.Server

abbrev after_ping : Bytes
after_ping = 4 ∷ 0 ∷ 0 ∷ 0 ∷ 0 ∷ []

read_frame-write_frame_example :
    ((read_frame source (1 ∷ 2 ∷ 0 ∷ 0 ∷ 0 ∷ 7 ∷ 8 ∷ after_ping)).0
      ≡ ok (CasCommand.write, 7 ∷ 8 ∷ []))
    × ((read_frame source (1 ∷ 2 ∷ 0 ∷ 0 ∷ 0 ∷ 7 ∷ 8 ∷ after_ping)).1 ≡ after_ping)
unfolding source_laws sink_laws write_frame
read_frame-write_frame_example =
    read_frame-write_frame source source_laws sink sink_laws CasCommand.write (7 ∷ 8 ∷ [])
      after_ping [] (1 ∷ 2 ∷ 0 ∷ 0 ∷ 0 ∷ 7 ∷ 8 ∷ after_ping) (omega arith) refl refl refl

read_frame-write_response_example :
    ((read_frame source (2 ∷ 1 ∷ 0 ∷ 0 ∷ 0 ∷ 9 ∷ [])).0 ≡ ok (CasCommand.read, 9 ∷ []))
    × ((read_frame source (2 ∷ 1 ∷ 0 ∷ 0 ∷ 0 ∷ 9 ∷ [])).1 ≡ [])
unfolding source_laws sink_laws write_response
read_frame-write_response_example =
    read_frame-write_response source source_laws sink sink_laws (data_response (9 ∷ [])) [] []
      (2 ∷ 1 ∷ 0 ∷ 0 ∷ 0 ∷ 9 ∷ []) refl (omega arith) refl refl refl

read_frame-error_message_example :
    ((read_frame source (255 ∷ 1 ∷ 0 ∷ 0 ∷ 0 ∷ 4 ∷ after_ping)).0 ≡ err invalid_data)
    × ((read_frame source (255 ∷ 1 ∷ 0 ∷ 0 ∷ 0 ∷ 4 ∷ after_ping)).1
        ≡ 1 ∷ 0 ∷ 0 ∷ 0 ∷ 4 ∷ after_ping)
unfolding source_laws sink_laws write_response
read_frame-error_message_example =
    read_frame-error_message source source_laws sink sink_laws (4 ∷ []) after_ping []
      (255 ∷ 1 ∷ 0 ∷ 0 ∷ 0 ∷ 4 ∷ after_ping) refl refl refl

abbrev toy_hash : Bytes → Bytes
toy_hash x = take 16 (x ++ replicate 16 0)

abbrev plain : Bytes → Bytes
plain x = x

abbrev stored : Files
stored = (Storage.write toy_hash plain memory (7 ∷ 8 ∷ []) no_files).1

write_done :
    (Storage.write toy_hash plain memory (7 ∷ 8 ∷ []) no_files).0 ≡ ok (toy_hash (7 ∷ 8 ∷ []))
unfolding Storage.write
write_done = refl

write-read_bytes_example :
    Storage.read toy_hash plain memory (toy_hash (7 ∷ 8 ∷ [])) stored ≡ ok (7 ∷ 8 ∷ [])
write-read_bytes_example =
    (Storage.write-read_bytes toy_hash plain memory memory_laws (7 ∷ 8 ∷ []) (toy_hash (7 ∷ 8 ∷ []))
        no_files write_done).1
      (content-no_files (Storage.hash_to_path toy_hash plain memory (toy_hash (7 ∷ 8 ∷ []))))

abbrev no_text : ErrorKind → Bytes
no_text e = []

request_done :
    (Server.handle_command toy_hash plain memory no_text CasCommand.write (7 ∷ 8 ∷ []) no_files).0
    ≡ hash_response (toy_hash (7 ∷ 8 ∷ []))
unfolding Server.handle_command
request_done = refl

write-read_requests_example :
    (Server.handle_command toy_hash plain memory no_text CasCommand.read
      (toy_hash (7 ∷ 8 ∷ []))
      (Server.handle_command toy_hash plain memory no_text CasCommand.write
        (7 ∷ 8 ∷ [])
        no_files).1).0
    ≡ data_response (7 ∷ 8 ∷ [])
write-read_requests_example =
    Server.write-read_requests toy_hash plain memory no_text memory_laws (7 ∷ 8 ∷ [])
      (toy_hash (7 ∷ 8 ∷ [])) no_files refl
      (content-no_files (Storage.hash_to_path toy_hash plain memory (toy_hash (7 ∷ 8 ∷ []))))
      request_done
