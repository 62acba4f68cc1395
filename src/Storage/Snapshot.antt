-- ===== src/Storage/Snapshot.antt =====
-- src/storage/cas/snapshot.rs: the list of root hashes that were kept. The clock is an argument; the
-- hexadecimal coding, the text of the list (`Json`) and the file under the manager's path
-- (`SnapshotFile`) are parameters.
pub mod Laws
use vo_e.Common.{
  ℕ, Bytes, Bool, true, false, not, if◌then◌else◌, ltb, length, bytes_eq, Option, none, some, List,
  [], ◌∷◌, ◌++◌, map, Outcome, ok, err, ErrorKind, ◌==◌,
}
use vo_e.Common.Io.{Io, lift, ◌>>=◌}
use vo_e.Blob.{Hash}

pub record SnapshotEntry : Type 0 where
  pub root : Bytes
  pub timestamp : ℕ
  pub description : Option Bytes

-- src/storage/mod.rs
pub record SnapshotInfo : Type 0 where
  pub id : Bytes
  pub timestamp : ℕ
  pub description : Option Bytes

-- The entries in memory, and the file system.
pub record SnapshotManager (F : Type 0) : Type 0 where
  pub snapshots : List SnapshotEntry
  pub files : F

-- `hex::encode`, and `hex::decode` with `none` for a text that is no coding.
pub record Hex : Type 0 where
  pub encode : Bytes → Bytes
  pub decode : Bytes → Option Bytes

-- `serde_json::to_string_pretty`, and `from_str` with `none` for a text that is no list of entries.
pub record Json : Type 0 where
  pub to_string_pretty : List SnapshotEntry → Outcome ErrorKind Bytes
  pub from_str : Bytes → Option (List SnapshotEntry)

-- The calls of the file at the manager's path.
pub record SnapshotFile (F : Type 0) : Type 0 where
  pub exists : F → Bool
  pub read_to_string : F → Outcome ErrorKind Bytes
  pub write : Bytes → Io F ErrorKind (Unit {0})

abbrev pub info_of : SnapshotEntry → SnapshotInfo
info_of e = record { id = e.root; timestamp = e.timestamp; description = e.description }

-- `iter().find(..)`
abbrev pub find : Bytes → List SnapshotEntry → Option SnapshotEntry
find id [] = none
find id (e ∷ es) = if bytes_eq e.root id then some e else find id es

-- `last()`
abbrev pub last : List SnapshotEntry → Option SnapshotEntry
last [] = none
last (e ∷ []) = some e
last (e ∷ e' ∷ es) = last (e' ∷ es)

-- `retain(|s| s.root != id)`
abbrev pub without : Bytes → List SnapshotEntry → List SnapshotEntry
without id [] = []
without id (e ∷ es) = if bytes_eq e.root id then without id es else e ∷ without id es

-- `?` and `and_then` on an `Option`
abbrev pub opt_bind : {A B : Type 0} → Option A → (A → Option B) → Option B
opt_bind none f = none
opt_bind (some a) f = f a

module _ (hex : Hex) where
  -- `Hash::from_hex(..).ok()` of src/blob/mod.rs
  unfoldable pub from_hex : Bytes → Option Hash
  from_hex s = opt_bind (hex.decode s) (λ bytes. if length bytes == 32 then some bytes else none)

  unfoldable pub get : {F : Type 0} → Bytes → SnapshotManager F → Option Hash
  unfolding from_hex
  get id m = opt_bind (find id m.snapshots) (λ e. from_hex e.root)

  unfoldable pub latest : {F : Type 0} → SnapshotManager F → Option Hash
  unfolding from_hex
  latest m = opt_bind (last m.snapshots) (λ e. from_hex e.root)

unfoldable pub list : {F : Type 0} → SnapshotManager F → List SnapshotInfo
list m = map info_of m.snapshots

-- `unwrap_or_default` on a list, `unwrap_or` on another value
abbrev pub unwrap_or : {A : Type 0} → Option A → A → A
unwrap_or none a = a
unwrap_or (some a) _ = a

module _ {F : Type 0} (json : Json) (file : SnapshotFile F) where
  unfoldable pub new : F → Outcome ErrorKind (SnapshotManager F)
  new files =
      loaded (if file.exists files then file.read_to_string files else ok []) (file.exists files)
    where
      loaded : Outcome ErrorKind Bytes → Bool → Outcome ErrorKind (SnapshotManager F)
      loaded (ok content) true =
          ok (record { snapshots = unwrap_or (json.from_str content) []; files = files })
      loaded (ok content) false = ok (record { snapshots = []; files = files })
      loaded (err e) _ = err e

  unfoldable pub save : List SnapshotEntry → Io F ErrorKind (Unit {0})
  save entries = do content ← lift (json.to_string_pretty entries); file.write content

  -- `self.save()?`, and then a value
  abbrev pub saved :
      {A : Type 0} → A → List SnapshotEntry → F → Outcome ErrorKind A × SnapshotManager F
  saved {A} a entries files = answer (save entries files)
    where
      answer : Outcome ErrorKind (Unit {0}) × F → Outcome ErrorKind A × SnapshotManager F
      answer (ok _, files') = (ok a, record { snapshots = entries; files = files' })
      answer (err e, files') = (err e, record { snapshots = entries; files = files' })

  unfoldable pub delete : Bytes → Io (SnapshotManager F) ErrorKind Bool
  delete id m =
      let kept = without id m.snapshots in
      if ltb (length kept) (length m.snapshots)
      then saved true kept m.files
      else (ok false, record { snapshots = kept; files = m.files })

module _ {F : Type 0} (hex : Hex) (json : Json) (file : SnapshotFile F) where
  unfoldable pub create : ℕ → Hash → Option Bytes → Io (SnapshotManager F) ErrorKind Bytes
  create now root_hash description m =
      let entry : SnapshotEntry = record {
        root = hex.encode root_hash;
        timestamp = now;
        description = description;
      } in
      saved json file (hex.encode root_hash) (m.snapshots ++ (entry ∷ [])) m.files
