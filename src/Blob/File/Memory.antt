-- ===== src/Blob/File/Memory.antt =====
-- A file system in memory: the assumptions on `Fs` can be met.
use vo_e.Common.{
  Bytes, ◌≡◌, ◌≢◌, refl, ap, ◌∙◌, Bool, true, false, ◌&&◌, ◌++◌, Option, none, some, [], Outcome,
  ok, err, ErrorKind, other, bytes_eq, bytes_eq_iff, if◌then◌else◌, arith,
}
use vo_e.Common.Io.{pure}
use vo_e.Blob.File.{FilePath, Fs, FsLaws}

abbrev pub Files : Type 0
Files = FilePath → Option Bytes

abbrev same_flag : Bool → Bool → Bool
same_flag true b = b
same_flag false true = false
same_flag false false = true

abbrev pub path_eq : FilePath → FilePath → Bool
path_eq p q = bytes_eq p.prefix q.prefix && (bytes_eq p.rest q.rest && same_flag p.tmp q.tmp)

path_eq_ne : (p q : FilePath) → p ≢ q → path_eq p q ≡ false
path_eq_ne p q h = ground (arith, h, bytes_eq_iff p.prefix q.prefix, bytes_eq_iff p.rest q.rest)

path_eq_self : (p : FilePath) → path_eq p p ≡ true
path_eq_self p = ground (arith, bytes_eq_iff p.prefix p.prefix, bytes_eq_iff p.rest p.rest)

abbrev set_file : FilePath → Option Bytes → Files → Files
set_file p x d q = if path_eq q p then x else d q

abbrev or_empty : Option Bytes → Bytes
or_empty none = []
or_empty (some x) = x

abbrev append : Option Bytes → Bytes → Option Bytes
append none y = none
append (some x) y = some (x ++ y)

abbrev is_some : Option Bytes → Bool
is_some none = false
is_some (some x) = true

abbrev read_file : Option Bytes → Outcome ErrorKind Bytes
read_file none = err other
read_file (some x) = ok x

abbrev pub memory : Fs Files
memory = record {
  exists = λ p d. is_some (d p);
  read = λ p d. read_file (d p);
  create_dir_all = λ q. pure tt;
  create = λ q d. (ok tt, set_file q (some []) d);
  write_all = λ q x d. (ok tt, set_file q (append (d q) x) d);
  sync_all = λ q. pure tt;
  rename = λ a b d. (ok tt, set_file b (d a) (set_file a none d));
  remove_file = λ q d. (ok tt, set_file q none d);
}

set_file_self : (p : FilePath) (x : Option Bytes) (d : Files) → set_file p x d p ≡ x
set_file_self p x d = rw (path_eq_self p)

set_file_ne : (p q : FilePath) (x : Option Bytes) (d : Files) → q ≢ p → set_file p x d q ≡ d q
set_file_ne p q x d h = rw (path_eq_ne q p h)

pub memory_laws : FsLaws memory
memory_laws = record {
  content = λ p d. d p;
  exists_none = λ p d h. rw h;
  exists_some = λ p d x h. rw h;
  read_some = λ p d x h. rw h;
  create_dir_all_keeps = λ q p d. refl;
  create_keeps = λ q p d h. set_file_ne q p _ d h;
  write_all_keeps = λ q p x d h. set_file_ne q p _ d h;
  sync_all_keeps = λ q p d. refl;
  rename_keeps =
      λ a b p d h k. set_file_ne b p (d a) (set_file a none d) k ∙ set_file_ne a p none d h;
  rename_failed = λ a b d e h k. cc;
  create_ok = λ q d h. set_file_self q _ d;
  write_all_ok = λ q x y d e h. set_file_self q _ d ∙ ap (λ o. append o y) e;
  rename_ok = λ a b d h. set_file_self b (d a) (set_file a none d);
}

abbrev pub no_files : Files
no_files p = none

pub content-no_files : (p : FilePath) → memory_laws.content p no_files ≡ none
unfolding memory_laws
content-no_files p = refl
