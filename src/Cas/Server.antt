-- ===== src/Cas/Server.antt =====
-- src/cas/server.rs: the answer to one request of the CAS service. `describe` is the text that the
-- standard library gives an I/O error.
use vo_e.Common.{
  Bytes, true, not, if◌then◌else◌, ◌==◌, length, [], ◌∷◌, ◌++◌, Outcome, ok, err, ErrorKind, none,
  ◌≡◌, refl, ap, ◌∙◌, ==_iff,
}
use vo_e.Blob.File.{Fs, FsLaws}
use vo_e.Cas.{
  CasCommand, CasResponse, hash_response, data_response, exists_response, deleted_response, pong,
  error_message,
}
use vo_e.Cas.Storage

abbrev invalid_hash_length : Bytes
invalid_hash_length =
    105 ∷ 110 ∷ 118 ∷ 97 ∷ 108 ∷ 105 ∷ 100 ∷ 32 ∷ 104 ∷ 97 ∷ 115 ∷ 104 ∷ 32 ∷ 108 ∷ 101 ∷ 110 ∷ 103
    ∷ 116 ∷ 104 ∷ []

-- The text before the error's own
abbrev write_failed : Bytes
write_failed = 119 ∷ 114 ∷ 105 ∷ 116 ∷ 101 ∷ 32 ∷ 102 ∷ 97 ∷ 105 ∷ 108 ∷ 101 ∷ 100 ∷ 58 ∷ 32 ∷ []

module _ {D : Type 0} (hash_of : Bytes → Bytes) (hex_encode : Bytes → Bytes) (fs : Fs D)
    (describe : ErrorKind → Bytes) where
  -- `match` on the result of a storage call
  abbrev answer :
      {A : Type 0} → (A → CasResponse) → Bytes → Outcome ErrorKind A × D → CasResponse × D
  answer response failed (ok a, d) = (response a, d)
  answer response failed (err e, d) = (error_message (failed ++ describe e), d)

  -- A request whose data is a hash.
  abbrev with_hash : Bytes → (D → CasResponse × D) → D → CasResponse × D
  with_hash contents act d =
      if not (length contents == 16) then (error_message invalid_hash_length, d) else act d

  unfoldable pub handle_command : CasCommand → Bytes → D → CasResponse × D
  unfolding Storage.write Storage.read Storage.exists Storage.delete
  handle_command CasCommand.write contents d =
      answer hash_response write_failed (Storage.write hash_of hex_encode fs contents d)
  handle_command CasCommand.read contents d =
      with_hash contents
        (λ d.
          answer data_response
            (114 ∷ 101 ∷ 97 ∷ 100 ∷ 32 ∷ 102 ∷ 97 ∷ 105 ∷ 108 ∷ 101 ∷ 100 ∷ 58 ∷ 32 ∷ [])
            (Storage.read hash_of hex_encode fs contents d, d))
        d
  handle_command CasCommand.exists contents d =
      with_hash contents
        (λ d. (exists_response (Storage.exists hash_of hex_encode fs contents d), d)) d
  handle_command CasCommand.ping contents d = (pong, d)
  handle_command CasCommand.delete contents d =
      with_hash contents
        (λ d.
          answer deleted_response
            (100 ∷ 101 ∷ 108 ∷ 101 ∷ 116 ∷ 101 ∷ 32 ∷ 102 ∷ 97 ∷ 105 ∷ 108 ∷ 101 ∷ 100 ∷ 58 ∷ 32
              ∷ [])
            (Storage.delete hash_of hex_encode fs contents d))
        d

  answer-hash_response :
      (hash failed : Bytes) (r : Outcome ErrorKind Bytes × D)
      → (answer hash_response failed r).0 ≡ hash_response hash
      → (r.0 ≡ ok hash) × ((answer hash_response failed r).1 ≡ r.1)
  answer-hash_response hash failed (ok a, d) h = (cc, refl)
  answer-hash_response hash failed (err e, d) h = cc

  -- With hashes of 16 bytes: after a write request answered with a hash, where no file was under
  -- the hash of its data, a read request for that hash is answered with the data.
  pub write-read_requests :
      (laws : FsLaws fs) (contents hash : Bytes) (d : D)
      → length (hash_of contents) ≡ 16
      → laws.content (Storage.hash_to_path hash_of hex_encode fs (hash_of contents)) d ≡ none
      → (handle_command CasCommand.write contents d).0 ≡ hash_response hash
      → (handle_command CasCommand.read hash (handle_command CasCommand.write contents d).1).0
        ≡ data_response contents
  unfolding handle_command
  write-read_requests laws contents hash d wide fresh h =
      let (stored, after) =
        answer-hash_response hash write_failed (Storage.write hash_of hex_encode fs contents d) h in
      let (same, found, _) =
        Storage.write-read_bytes hash_of hex_encode fs laws contents hash d stored in
      let sixteen : (length hash == 16) ≡ true =
        (==_iff (length hash) 16).1 (ap length same ∙ wide) in
      rw (sixteen, after, found fresh) refl
