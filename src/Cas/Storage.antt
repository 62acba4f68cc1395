-- ===== src/Cas/Storage.antt =====
-- src/cas/storage.rs: `CasStorage`, one file for each hash. The file system is a parameter, as in
-- Blob/File, and so are xxHash3 (`hash_of`) and the hexadecimal coding.
use vo_e.Common.{
  Bytes, ◌≡◌, refl, sym, ap, ◌∙◌, Bool, true, false, not, if◌then◌else◌, none, some, take, drop, [],
  Outcome, ok, ErrorKind, ok_inj,
}
use vo_e.Common.Io.{Io, pure, ◌>>=◌, ◌>>◌, >>-eq-ok, >>=-eq-ok}
use vo_e.Blob.File.{FilePath, Fs, FsLaws}

module _ {D : Type 0} (hash_of : Bytes → Bytes) (hex_encode : Bytes → Bytes) (fs : Fs D) where
  unfoldable pub hash_to_path : Bytes → FilePath
  hash_to_path hash =
      let hex = hex_encode hash in record { prefix = take 2 hex; rest = drop 2 hex; tmp = false }

  -- The file made in place, unless it is there.
  unfoldable pub write_new : FilePath → Bytes → Io D ErrorKind (Unit {0})
  write_new path contents d =
      (if not (fs.exists path d)
          then (do fs.create path; fs.write_all path contents; fs.sync_all path)
          else pure tt)
        d

  unfoldable pub write : Bytes → Io D ErrorKind Bytes
  unfolding hash_to_path write_new
  write contents = do
    fs.create_dir_all (hash_to_path (hash_of contents)).prefix
    write_new (hash_to_path (hash_of contents)) contents
    pure (hash_of contents)

  unfoldable pub read : Bytes → D → Outcome ErrorKind Bytes
  unfolding hash_to_path
  read hash d = fs.read (hash_to_path hash) d

  unfoldable pub exists : Bytes → D → Bool
  unfolding hash_to_path
  exists hash d = fs.exists (hash_to_path hash) d

  unfoldable pub delete : Bytes → Io D ErrorKind Bool
  unfolding hash_to_path
  delete hash d =
      let path = hash_to_path hash in
      let remove : Io D ErrorKind Bool = do fs.remove_file path; pure true
      in if fs.exists path d then remove d else (ok false, d)

  module _ (laws : FsLaws fs) where
    -- What a read finds under the hash of contents whose file is this.
    pub read-some :
        (contents x : Bytes) (d : D)
        → laws.content (hash_to_path (hash_of contents)) d ≡ some x
        → read (hash_of contents) d ≡ ok x
    unfolding read
    read-some contents x d h = laws.read_some (hash_to_path (hash_of contents)) d x h

    write_new-fresh :
        (path : FilePath) (contents : Bytes) (d : D)
        → laws.content path d ≡ none
        → (write_new path contents d).0 ≡ ok tt
        → laws.content path (write_new path contents d).1 ≡ some contents
    unfolding write_new
    write_new-fresh path contents d fresh h =
        let sync = fs.sync_all path in
        let fill = fs.write_all path contents in
        let same : write_new path contents d ≡ (fs.create path >> (fill >> sync)) d =
          rw (laws.exists_none path d fresh) refl in
        let (made, filled, after) =
          >>-eq-ok (fs.create path) (fill >> sync) d (sym (ap (λ r. r.0) same) ∙ h) in
        let d1 = (fs.create path d).1 in
        let (filled', _, after') = >>-eq-ok fill sync d1 filled in
        ap (λ r. laws.content path r.1) (same ∙ after ∙ after')
        ∙ laws.sync_all_keeps path path (fill d1).1
        ∙ laws.write_all_ok path [] contents d1 (laws.create_ok path d made) filled'

    write_new-there :
        (path : FilePath) (contents x : Bytes) (d : D)
        → laws.content path d ≡ some x
        → (write_new path contents d).1 ≡ d
    unfolding write_new
    write_new-there path contents x d there = rw (laws.exists_some path d x there) refl

    -- A write that returned gave the hash of its contents. If no file was under that hash, a read
    -- of the hash now gives the contents. If a file was there, its bytes stay, whatever they are,
    -- and the read gives these: a file that an earlier write left incomplete is not made whole.
    pub write-read_bytes :
        (contents hash : Bytes) (d : D)
        → (write contents d).0 ≡ ok hash
        → (hash ≡ hash_of contents)
          × (laws.content (hash_to_path (hash_of contents)) d ≡ none
              → read hash (write contents d).1 ≡ ok contents)
          × ((x : Bytes)
              → laws.content (hash_to_path (hash_of contents)) d ≡ some x
              → read hash (write contents d).1 ≡ ok x)
    unfolding write
    write-read_bytes contents hash d h =
        let path = hash_to_path (hash_of contents) in
        let make = fs.create_dir_all path.prefix in
        let last : Io D ErrorKind Bytes =
          write_new path contents >>= λ _. pure (hash_of contents) in
        let (_, made, h1) = >>=-eq-ok make (λ _. last) d h in
        let d1 = (make d).1 in
        let (_, stored, h2) =
          >>=-eq-ok (write_new path contents) (λ _. pure (hash_of contents)) d1 h1 in
        let same : hash ≡ hash_of contents = sym (ok_inj h2) in
        let after : (write contents d).1 ≡ (write_new path contents d1).1 =
          rw (made, stored) refl in
        let before : laws.content path d1 ≡ laws.content path d =
          laws.create_dir_all_keeps path.prefix path d in
        (
          same,
          λ fresh.
              rw (same, after)
                (read-some contents contents (write_new path contents d1).1
                  (write_new-fresh path contents d1 (before ∙ fresh) stored)),
          λ x there.
              rw (same, after)
                (read-some contents x (write_new path contents d1).1 (
                  ap (laws.content path) (write_new-there path contents x d1 (before ∙ there))
                  ∙ before
                  ∙ there)),
        )
