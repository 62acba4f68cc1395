-- ===== src/Blob/File/Write.antt =====
-- What a blob's write does to the files: it changes the file under its own name at most, and that
-- only if it succeeds.
use vo_e.Common.{
  ℕ, Bytes, ◌≡◌, ◌≢◌, sym, ap, ◌∙◌, true, false, some, take, drop, take-append-drop, ◌++◌, [],
  Outcome, ok, err, ErrorKind,
}
use mathlib.Core.Path.{ap₂}
use mathlib.Core.Bool.{false≢true}
use vo_e.Common.Io.{Io, ◌>>◌, >>-eq-ok, >>_keeps, >>_keeps_err}
use vo_e.Blob.{Hash}
use vo_e.Blob.File.{FilePath, Fs, FsLaws, path_for, with_tmp, write_file}

take-drop_inj : (n : ℕ) (xs ys : Bytes) → take n xs ≡ take n ys → drop n xs ≡ drop n ys → xs ≡ ys
take-drop_inj n xs ys h k =
    sym (take-append-drop n xs) ∙ ap₂ (λ a b. a ++ b) h k ∙ take-append-drop n ys

module _ {D : Type 0} (from_data : Bytes → Hash) (hex_encode : Bytes → Bytes) (fs : Fs D)
    (laws : FsLaws fs) (hex_inj : (a b : Hash) → hex_encode a ≡ hex_encode b → a ≡ b) where
  open laws use {content}

  pub path_for_inj : (a b : Hash) → path_for hex_encode a ≡ path_for hex_encode b → a ≡ b
  unfolding path_for
  path_for_inj a b h =
      hex_inj a b
        (take-drop_inj 2 _ _ (ap (λ (p : FilePath). p.prefix) h) (ap (λ (p : FilePath). p.rest) h))

  tmp-ne : (p q : FilePath) → p.tmp ≡ false → p ≢ with_tmp q
  unfolding with_tmp
  tmp-ne p q h e = absurd (false≢true (sym h ∙ ap (λ (r : FilePath). r.tmp) e))

  pub rename-ne : (p q : FilePath) → p.tmp ≡ false → p ≢ record q { tmp = true }
  unfolding with_tmp
  rename-ne = tmp-ne

  module _ (path : FilePath) (x : Bytes) where
    abbrev pub t : FilePath
    t = record path { tmp = true }

    abbrev pub move : Io D ErrorKind (Unit {0})
    move = fs.rename t path

    abbrev pub sync_move : Io D ErrorKind (Unit {0})
    sync_move = fs.sync_all t >> move

    abbrev pub write_move : Io D ErrorKind (Unit {0})
    write_move = fs.write_all t x >> sync_move

    abbrev pub write : Io D ErrorKind (Unit {0})
    write = write_file from_data hex_encode fs path x

    -- Before the renaming no file but the temporary one changes.
    pub write_keeps :
        (p : FilePath) (d : D)
        → p.tmp ≡ false
        → ((s : D) → content p (move s).1 ≡ content p s)
        → content p (write d).1 ≡ content p d
    unfolding write_file with_tmp
    write_keeps p d h last =
        >>_keeps (content p) (fs.create t) write_move
          (λ s. laws.create_keeps t p s (tmp-ne p path h))
          (>>_keeps (content p) (fs.write_all t x) sync_move
            (λ s. laws.write_all_keeps t p x s (tmp-ne p path h))
            (>>_keeps (content p) (fs.sync_all t) move (laws.sync_all_keeps t p) last))
          d

    pub write_failed :
        (d : D) (e : ErrorKind)
        → path.tmp ≡ false
        → (write d).0 ≡ err e
        → content path (write d).1 ≡ content path d
    unfolding write_file with_tmp
    write_failed d e h =
        >>_keeps_err (content path) (fs.create t) write_move
          (λ s. laws.create_keeps t path s (tmp-ne path path h))
          (>>_keeps_err (content path) (fs.write_all t x) sync_move
            (λ s. laws.write_all_keeps t path x s (tmp-ne path path h))
            (>>_keeps_err (content path) (fs.sync_all t) move (laws.sync_all_keeps t path)
              (λ s e' r. laws.rename_failed t path s e' r (λ q. tmp-ne path path h (sym q)))))
          d e

    pub write_ok : (d : D) → (write d).0 ≡ ok tt → content path (write d).1 ≡ some x
    unfolding write_file with_tmp
    write_ok d h =
        let (created, h1, at1) = >>-eq-ok (fs.create t) write_move d h in
        let d1 = (fs.create t d).1 in
        let (written, h2, at2) = >>-eq-ok (fs.write_all t x) sync_move d1 h1 in
        let d2 = (fs.write_all t x d1).1 in
        let (synced, moved, at3) = >>-eq-ok (fs.sync_all t) move d2 h2 in
        ap (λ (r : Outcome ErrorKind (Unit {0}) × D). content path r.1) (at1 ∙ at2 ∙ at3)
        ∙ laws.rename_ok t path (fs.sync_all t d2).1 moved
        ∙ laws.sync_all_keeps t t d2
        ∙ laws.write_all_ok t [] x d1 (laws.create_ok t d created) written
