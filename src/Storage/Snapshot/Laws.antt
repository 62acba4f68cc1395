-- ===== src/Storage/Snapshot/Laws.antt =====
-- What a `SnapshotManager` keeps, finds and forgets.
use vo_e.Common.{
  ℕ, ◌≡◌, ◌≢◌, refl, sym, ap, ◌∙◌, Bytes, true, Bool-cases, ◌⊎◌, inl, inr, length, bytes_eq,
  bytes_eq_iff, ltb, Option, none, some, List, [], ◌∷◌, ◌++◌, Outcome, ok, err, Outcome-cases,
  ErrorKind, bytes_eq_self,
}
use vo_e.Blob.{Hash}
use vo_e.Storage.Snapshot.{
  SnapshotEntry, SnapshotManager, Hex, Json, SnapshotFile, find, last, without, from_hex, get, new,
  save, create, delete,
}

-- `hex::decode` undoes `hex::encode`.
pub record HexLaws (hex : Hex) : Type 0 where
  pub decode-encode : (h : Bytes) → hex.decode (hex.encode h) ≡ some h

-- The list comes back from its text, and the text from a file that was written.
pub record SnapshotFileLaws {F : Type 0} (json : Json) (file : SnapshotFile F) : Type 0 where
  pub from_str-to_string_pretty :
      (es : List SnapshotEntry) (text : Bytes)
      → json.to_string_pretty es ≡ ok text
      → json.from_str text ≡ some es
  pub write_ok :
      (text : Bytes) (f : F)
      → (file.write text f).0 ≡ ok tt
      → (file.exists (file.write text f).1 ≡ true)
        × (file.read_to_string (file.write text f).1 ≡ ok text)

-- Some entry has the id.
abbrev pub IsListed : Bytes → List SnapshotEntry → Type 0
IsListed id es = (e : SnapshotEntry) × (find id es ≡ some e)

pub find_root :
    (id : Bytes) (es : List SnapshotEntry) (e : SnapshotEntry) → find id es ≡ some e → e.root ≡ id
find_root id [] e h = absurd (let bad : ◌≡◌ {A = Option SnapshotEntry} none (some e) = h in cc)
find_root id (x ∷ es) e h = elim (Bool-cases (bytes_eq x.root id)) [
  | inl same ↦
      let x_e : x ≡ e =
        (let h' : ◌≡◌ {A = Option SnapshotEntry} (some x) (some e) = rw same at h in cc) in
      ap (λ (y : SnapshotEntry). y.root) (sym x_e) ∙ (bytes_eq_iff x.root id).0 same
  | inr other ↦ find_root id es e (rw other at h)
]

-- What an entry more at the end changes.
pub find-append :
    (id : Bytes) (es : List SnapshotEntry) (n x : SnapshotEntry)
    → find id (es ++ (n ∷ [])) ≡ some x
    → (find id es ≡ some x) ⊎ (x ≡ n)
find-append id [] n x h = elim (Bool-cases (bytes_eq n.root id)) [
  | inl same ↦ inr (let h' : ◌≡◌ {A = Option SnapshotEntry} (some n) (some x) = rw same at h in cc)
  | inr other ↦ absurd (let h' : ◌≡◌ {A = Option SnapshotEntry} none (some x) = rw other at h in cc)
]
find-append id (e ∷ es) n x h = elim (Bool-cases (bytes_eq e.root id)) [
  | inl same ↦ inl (rw same (rw same at h))
  | inr other ↦ rw other (find-append id es n x (rw other at h))
]

pub IsListed-append :
    (id : Bytes) (es : List SnapshotEntry) (n : SnapshotEntry)
    → IsListed id es
    → IsListed id (es ++ (n ∷ []))
IsListed-append id [] n (e, h) =
    absurd (let bad : ◌≡◌ {A = Option SnapshotEntry} none (some e) = h in cc)
IsListed-append id (x ∷ es) n (e, h) = elim (Bool-cases (bytes_eq x.root id)) [
  | inl same ↦ (x, rw same refl)
  | inr other ↦ rw other (IsListed-append id es n (e, rw other at h))
]

pub IsListed-new : (es : List SnapshotEntry) (n : SnapshotEntry) → IsListed n.root (es ++ (n ∷ []))
IsListed-new [] n = (n, rw (bytes_eq_self n.root) refl)
IsListed-new (x ∷ es) n = elim (Bool-cases (bytes_eq x.root n.root)) [
  | inl same ↦ (x, rw same refl)
  | inr other ↦ rw other (IsListed-new es n)
]

pub last-append : (es : List SnapshotEntry) (n : SnapshotEntry) → last (es ++ (n ∷ [])) ≡ some n
last-append [] n = refl
last-append (x ∷ []) n = refl
last-append (x ∷ y ∷ es) n = last-append (y ∷ es) n

pub find-without_self : (id : Bytes) (es : List SnapshotEntry) → find id (without id es) ≡ none
find-without_self id [] = refl
find-without_self id (x ∷ es) = elim (Bool-cases (bytes_eq x.root id)) [
  | inl same ↦ rw same (find-without_self id es)
  | inr other ↦ rw other (rw other (find-without_self id es))
]

pub find-without_ne :
    (id k : Bytes) (es : List SnapshotEntry) → k ≢ id → find k (without id es) ≡ find k es
find-without_ne id k [] differ = refl
find-without_ne id k (x ∷ es) differ = elim (Bool-cases (bytes_eq x.root id)) [
  | inl same ↦ elim (Bool-cases (bytes_eq x.root k)) [
    | inl also ↦
        absurd (differ (sym ((bytes_eq_iff x.root k).0 also) ∙ (bytes_eq_iff x.root id).0 same))
    | inr not_k ↦ rw (same, not_k) (find-without_ne id k es differ)
  ]
  | inr other ↦ elim (Bool-cases (bytes_eq x.root k)) [
    | inl here ↦ rw (other, here) refl
    | inr not_k ↦ rw (other, not_k) (find-without_ne id k es differ)
  ]
]

module _ (hex : Hex) (hex_laws : HexLaws hex) where
  pub from_hex-encode : (h : Hash) → length h ≡ 32 → from_hex hex (hex.encode h) ≡ some h
  unfolding from_hex
  from_hex-encode h wide = rw (hex_laws.decode-encode h, wide) refl

  -- A listed id is that of a hash: the hash is what `get` finds.
  pub get-IsListed :
      {F : Type 0} (h : Hash) (m : SnapshotManager F)
      → length h ≡ 32
      → IsListed (hex.encode h) m.snapshots
      → get hex (hex.encode h) m ≡ some h
  unfolding get
  get-IsListed h m wide (e, found) =
      rw (found, find_root (hex.encode h) m.snapshots e found) (from_hex-encode h wide)

module _ {F : Type 0} (hex : Hex) (json : Json) (file : SnapshotFile F) where
  abbrev pub entry_of : ℕ → Hash → Option Bytes → SnapshotEntry
  entry_of now h description = record {
    root = hex.encode h;
    timestamp = now;
    description = description;
  }

  -- `create` adds its entry at the end in memory, also when the file could not be written.
  pub create-snapshots :
      (now : ℕ) (h : Hash) (description : Option Bytes) (m : SnapshotManager F)
      → (create hex json file now h description m).1.snapshots
        ≡ m.snapshots ++ (entry_of now h description ∷ [])
  unfolding create
  create-snapshots now h description m =
      elim (Outcome-cases
        (save json file (m.snapshots ++ (entry_of now h description ∷ [])) m.files).0) [
          | inl (u, e) ↦ rw e refl
          | inr (k, e) ↦ rw e refl
        ]

  pub create-eq-ok :
      (now : ℕ) (h : Hash) (description : Option Bytes) (m : SnapshotManager F) (id : Bytes)
      → (create hex json file now h description m).0 ≡ ok id
      → (id ≡ hex.encode h)
        × (let es = m.snapshots ++ (entry_of now h description ∷ []) in
            ((save json file es m.files).0 ≡ ok tt)
            × ((create hex json file now h description m).1.files ≡ (save json file es m.files).1))
  unfolding create
  create-eq-ok now h description m id done =
      let es = m.snapshots ++ (entry_of now h description ∷ []) in
      elim (Outcome-cases (save json file es m.files).0) [
        | inl (u, e) ↦
            let done' : ◌≡◌ {A = Outcome ErrorKind Bytes} (ok (hex.encode h)) (ok id) =
              rw e at done in
            (cc, (e, rw e refl))
        | inr (k, e) ↦
            absurd
              (let bad : ◌≡◌ {A = Outcome ErrorKind Bytes} (err k) (ok id) = rw e at done in cc)
      ]

  -- A file that was saved is loaded as the list that it was saved from.
  pub new-save :
      SnapshotFileLaws json file
      → (es : List SnapshotEntry) (f : F) → (save json file es f).0 ≡ ok tt
      → new json file (save json file es f).1
        ≡ ok (record { snapshots = es; files = (save json file es f).1 })
  unfolding new save
  new-save laws es f done = elim (Outcome-cases (json.to_string_pretty es)) [
    | inl (text, printed) ↦
        let done' : (file.write text f).0 ≡ ok tt = rw printed at done in
        let (there, back) = laws.write_ok text f done' in
        rw (printed, there, back, laws.from_str-to_string_pretty es text printed) refl
    | inr (k, failed) ↦
        absurd (
          let bad : ◌≡◌ {A = Outcome ErrorKind (Unit {0})} (err k) (ok tt) = rw failed at done in
          cc)
  ]

  delete-snapshots :
      (id : Bytes) (m : SnapshotManager F)
      → (delete json file id m).1.snapshots ≡ without id m.snapshots
  unfolding delete
  delete-snapshots id m =
      let kept = without id m.snapshots in
      elim (Bool-cases (ltb (length kept) (length m.snapshots))) [
        | inr same ↦ rw same refl
        | inl fewer ↦ elim (Outcome-cases (save json file kept m.files).0) [
          | inl (u, e) ↦ rw (fewer, e) refl
          | inr (k, e) ↦ rw (fewer, e) refl
        ]
      ]

  -- After `delete`, also one whose file could not be written, the id is not found, and every other
  -- id is found as before.
  pub get-delete :
      (id : Bytes) (m : SnapshotManager F)
      → (get hex id (delete json file id m).1 ≡ none)
        × ((k : Bytes) → k ≢ id → get hex k (delete json file id m).1 ≡ get hex k m)
  unfolding get
  get-delete id m = rw (delete-snapshots id m) (
    rw (find-without_self id m.snapshots) refl,
    λ k differ. rw (find-without_ne id k m.snapshots differ) refl,
  )
