-- ===== src/Tests/ArchiveRun.antt =====
-- A `CasBackend` over `FileBlobStore` in memory, with stand-ins for BLAKE3, LZ4 and the texts.
use vo_e.Common.{
  ℕ, ◌+◌, ◌≤◌, ◌≡◌, refl, sym, ap, ◌∙◌, subst, arith, Bool, true, false, Bytes, ◌⊎◌, inl, inr, List,
  [], ◌∷◌, ◌++◌, take, drop, replicate, get_or, All, Option, none, some, Outcome, ok, err, ok_inj,
  ErrorKind, other, length-append, length-take,
}
use vo_e.Blob.{Hash, zero_hash, BlobStore, BlobError, BlobLaws, HashLaws}
use vo_e.Blob.File.{file_blob_store}
use vo_e.Blob.File.Laws.{file_blob_store_laws, empty-IsIntact}
use vo_e.Blob.File.Memory.{Files, memory, memory_laws, no_files, content-no_files}
use vo_e.Tree
use vo_e.Tree.{MerkleTree, set_hash, descend, extract_index, extract_hash, lookup, calculate_depth}
use vo_e.Tree.Update.{update, new_nodes, top_hash}
use vo_e.Tree.Correct.{update_nodes}
use vo_e.Storage.{StorageError, DeviceInfo, validate_range}
use vo_e.Storage.Laws.{slice, put_at}
use vo_e.Storage.Snapshot
use vo_e.Storage.Snapshot.{Hex, Json, SnapshotFile, SnapshotManager, SnapshotEntry}
use vo_e.Storage.Snapshot.Laws.{HexLaws, SnapshotFileLaws, get-delete}
use vo_e.Storage.Cas.{Codec, chunks, encoded, decoded}
use vo_e.Storage.Cas.Block.{CodecLaws, decoded-encoded}
use vo_e.Storage.Cas.Backend.{
  CasBackend, tree_of, read, write, write_chunks, write_block, store_block,
}
use vo_e.Storage.Cas.Archive.{new, snapshot, restore, backend_info}
use vo_e.Storage.Cas.Laws.{Accepts, read-eq-slice, write-Atomic}
use vo_e.Storage.Cas.Refines.{Request, Explains, run, ArePermitted, run-Explains}
use vo_e.Storage.Cas.History.{Access, Step, Reach, Used, IsArchive, Good, bytes_of, Step-IsArchive}
use vo_e.Storage.Cas.Fresh.{empty-IsDisk, new-IsArchive}
use vo_e.Storage.Cas.Restore.{snapshot-restore, snapshot-new}

-- 32 numbers, of which the first is not 0.
abbrev short_hash : Bytes → Hash
short_hash x = 1 ∷ take 31 (drop 32 x ++ replicate 31 0)

abbrev store : BlobStore Files
store = file_blob_store short_hash (λ x. x) memory

-- It never makes anything shorter.
abbrev codec : Codec
codec = record { compress = λ d. d; decompress = λ d. some d }

codec_laws : CodecLaws codec
codec_laws = record { decompress-compress = λ d. refl }

abbrev hex : Hex
hex = record { encode = λ h. h; decode = λ h. some h }

hex_laws : HexLaws hex
hex_laws = record { decode-encode = λ h. refl }

-- It prints lists of one entry without a description.
abbrev plain : Bytes → Option Bytes → Outcome ErrorKind Bytes
plain text none = ok text
plain text (some d) = err other

abbrev print : List SnapshotEntry → Outcome ErrorKind Bytes
print (e ∷ []) = plain (e.timestamp ∷ e.root) e.description
print es = err other

abbrev parse : Bytes → Option (List SnapshotEntry)
parse [] = none
parse (t ∷ r) = some (record { root = r; timestamp = t; description = none } ∷ [])

abbrev json : Json
json = record { to_string_pretty = print; from_str = parse }

abbrev file : SnapshotFile (Option Bytes)
file = record { exists = is_there; read_to_string = content; write = λ text f. (ok tt, some text) }
  where
    is_there : Option Bytes → Bool
    is_there none = false
    is_there (some text) = true

    content : Option Bytes → Outcome ErrorKind Bytes
    content none = err other
    content (some text) = ok text

refused : {text : Bytes} {A : Type 0} → ◌≡◌ {A = Outcome ErrorKind Bytes} (err other) (ok text) → A
refused h = absurd cc

printed_one :
    (e : SnapshotEntry) (text : Bytes) (d : Option Bytes)
    → e.description ≡ d
    → plain (e.timestamp ∷ e.root) d ≡ ok text
    → parse text ≡ some (e ∷ [])
printed_one e text none p h =
    ap parse (sym (ok_inj h))
    ∙ ap (λ d. some (record { root = e.root; timestamp = e.timestamp; description = d } ∷ []))
        (sym p)
printed_one e text (some d) p h = refused h

printed :
    (es : List SnapshotEntry) (text : Bytes)
    → json.to_string_pretty es ≡ ok text
    → json.from_str text ≡ some es
printed [] text h = refused h
printed (e ∷ []) text h = printed_one e text e.description refl h
printed (e ∷ e' ∷ es) text h = refused h

file_laws : SnapshotFileLaws json file
file_laws = record { from_str-to_string_pretty = printed; write_ok = λ text f done. (refl, refl) }

abbrev describe : BlobError → Bytes
describe e = []

abbrev describe_io : ErrorKind → Bytes
describe_io e = []

abbrev sevens : Bytes
sevens = replicate 512 7

abbrev block : Bytes
block = 0 ∷ sevens

abbrev leaf_node : Bytes
leaf_node = set_hash (replicate 4096 0) 1 (short_hash block)

abbrev Known : Bytes → Type 0
Known x = (x ≡ block) ⊎ (x ≡ leaf_node)

block-ne-leaf : short_hash block ≡ short_hash leaf_node → ⊥
unfolding set_hash
block-ne-leaf e = let h : ◌≡◌ {A = ℕ} 7 1 = ap (λ l. get_or l 1 9) e in absurd (omega (arith, h))

no_collision : (a b : Bytes) → Known a → Known b → short_hash a ≡ short_hash b → a ≡ b
no_collision a b (inl p) (inl q) e = p ∙ sym q
no_collision a b (inr p) (inr q) e = p ∙ sym q
no_collision a b (inl p) (inr q) e =
    absurd (block-ne-leaf (sym (ap short_hash p) ∙ e ∙ ap short_hash q))
no_collision a b (inr p) (inl q) e =
    absurd (block-ne-leaf (sym (ap short_hash q) ∙ sym e ∙ ap short_hash p))

hash_laws : HashLaws short_hash Known
hash_laws = record {
  length-from_data = λ d. omega (
    arith,
    length-take 31 (drop 32 d ++ replicate 31 0),
    length-append (drop 32 d) (replicate {A = ℕ} 31 0),
  );
  from_data-ne-zero = λ d known. refl;
}

abbrev laws : BlobLaws short_hash store Known
laws = file_blob_store_laws short_hash (λ x. x) memory memory_laws (λ a b e. e) Known no_collision

no_files-IsIntact : laws.IsIntact no_files
no_files-IsIntact =
    empty-IsIntact short_hash (λ x. x) memory memory_laws (λ a b e. e) Known no_collision no_files
      content-no_files

abbrev Backend : Type 0
Backend = CasBackend Files (Option Bytes)

abbrev blank : Backend
blank = record {
  blobs = no_files;
  root_hash = zero_hash;
  info = backend_info (48 ∷ []) (49 ∷ []) 3;
  snapshots = record { snapshots = []; files = none };
  compress = true;
}

abbrev Archive : Backend → Type 0
Archive =
    IsArchive short_hash store codec describe Known hash_laws laws codec_laws hex json file
      describe_io

abbrev bytes : Backend → Bytes
bytes =
    bytes_of short_hash store codec describe Known hash_laws laws codec_laws hex json file
      describe_io

blank-IsArchive : Archive blank
unfolding Snapshot.get
blank-IsArchive = (
  (
    refl,
    omega arith,
    empty-IsDisk store codec describe 3 no_files (λ e. cc) (omega arith),
    no_files-IsIntact,
  ),
  λ id h found. absurd (let bad : ◌≡◌ {A = Option Hash} none (some h) = found in cc),
)

abbrev after : Backend
after = (snapshot hex json file describe_io 5 none blank).1

took : (snapshot hex json file describe_io 5 none blank).0 ≡ ok zero_hash
unfolding snapshot Snapshot.create Snapshot.save
took = refl

accepts : Accepts short_hash store codec describe Known hash_laws laws codec_laws 1 sevens after
unfolding snapshot Snapshot.create Snapshot.save chunks store_block write_block encoded update_nodes
    descend new_nodes top_hash extract_index extract_hash Tree.new calculate_depth file_blob_store
accepts = (
  (
    λ nonzero. inl refl,
    λ h e.
        subst (λ h. All Known (update_nodes store short_hash (tree_of after) 1 h after.blobs))
          (ok_inj e) (inr refl, tt),
  ),
  λ tree' e. tt,
)

abbrev written : Backend
written = (write short_hash store codec describe 1 sevens after).1

write_step :
    Access short_hash store codec describe Known hash_laws laws codec_laws hex json file describe_io
      after written
unfolding snapshot
write_step =
    Access.writes after 1 1 sevens (let h : 1 + 1 ≤ 3 = omega arith in h) (omega arith) refl accepts

write_done : (write short_hash store codec describe 1 sevens after).0 ≡ ok tt
unfolding write write_chunks write_block store_block validate_range chunks encoded update
    file_blob_store Tree.new calculate_depth snapshot Snapshot.create Snapshot.save
write_done = refl

snapshot-restore_example :
    ((restore hex json file describe_io zero_hash written).0 ≡ ok tt)
    × Archive (restore hex json file describe_io zero_hash written).1
    × (bytes (restore hex json file describe_io zero_hash written).1 ≡ bytes blank)
snapshot-restore_example =
    snapshot-restore short_hash store codec describe Known hash_laws laws codec_laws hex json file
      describe_io hex_laws blank written 5 none zero_hash blank-IsArchive took
      (Reach.more Reach.start (Step.accesses write_step))

snapshot-new_example :
    (n : Backend) × (new hex json file describe_io
        (48 ∷ [])
        (49 ∷ [])
        written.info.total_sectors
        written.blobs
        written.snapshots.files
      ≡ ok n)
    × (bytes n ≡ bytes blank)
snapshot-new_example =
    snapshot-new short_hash store codec describe Known hash_laws laws codec_laws hex json file
      describe_io hex_laws blank written 5 none zero_hash (48 ∷ []) (49 ∷ []) file_laws
      blank-IsArchive.0 took (Used.used Used.unused write_step)

new-IsArchive_example :
    (b : Backend) × (new hex json file describe_io (48 ∷ []) (49 ∷ []) 3 no_files none ≡ ok b)
    × Archive b
    × (bytes b ≡ replicate 1536 0)
new-IsArchive_example =
    new-IsArchive short_hash store codec describe Known hash_laws laws codec_laws hex json file
      describe_io 3 (48 ∷ []) (49 ∷ []) no_files none (λ e. cc) (omega arith) no_files-IsIntact refl

abbrev IsGood : Backend → Type 0
IsGood =
    Good short_hash store codec describe Known hash_laws laws codec_laws hex json file describe_io

after-IsGood : IsGood after
unfolding snapshot
after-IsGood = blank-IsArchive.0

sevens_fit : 1 + 1 ≤ after.info.total_sectors
unfolding snapshot
sevens_fit = omega arith

write-Atomic_example :
    IsGood written
    × (written.info ≡ after.info)
    × ((((write short_hash store codec describe 1 sevens after).0 ≡ ok tt)
          × (bytes written ≡ put_at 512 sevens (bytes after)))
        ⊎ ((e : StorageError) × ((write short_hash store codec describe 1 sevens after).0 ≡ err e)
            × (bytes written ≡ bytes after)))
write-Atomic_example =
    write-Atomic short_hash store codec describe Known hash_laws laws codec_laws after 1 1 sevens
      after-IsGood sevens_fit (omega arith) refl accepts

read-eq-slice_example :
    read short_hash store codec describe 1 2 blank ≡ (ok (slice 512 1024 (bytes blank)), blank)
read-eq-slice_example =
    read-eq-slice short_hash store codec describe Known hash_laws laws codec_laws blank 1 2
      blank-IsArchive.0 (omega arith)

-- A sector is written, read and flushed.
abbrev requests : List Request
requests = Request.writes 1 1 sevens ∷ Request.reads 1 1 ∷ Request.flushes ∷ []

permitted :
    ArePermitted short_hash store codec describe Known hash_laws laws codec_laws requests after
permitted = (
  (sevens_fit, omega arith, refl, accepts),
  (
    subst (λ (i : DeviceInfo). 1 + 1 ≤ i.total_sectors) (sym write-Atomic_example.1) sevens_fit,
    (tt, tt),
  ),
)

run-Explains_example :
    Explains requests
      (run short_hash store codec describe requests after).0
      (bytes after)
      (bytes (run short_hash store codec describe requests after).1)
    × IsGood (run short_hash store codec describe requests after).1
run-Explains_example =
    run-Explains short_hash store codec describe Known hash_laws laws codec_laws requests after
      after-IsGood permitted

Step-IsArchive_example : Archive (restore hex json file describe_io zero_hash blank).1
Step-IsArchive_example =
    Step-IsArchive short_hash store codec describe Known hash_laws laws codec_laws hex json file
      describe_io hex_laws (Step.restores blank zero_hash) blank-IsArchive

decoded-encoded_example : decoded codec (encoded codec true sevens) ≡ ok sevens
decoded-encoded_example = decoded-encoded codec codec_laws true sevens

abbrev two : SnapshotManager (Option Bytes)
two = record {
  snapshots =
      record { root = zero_hash; timestamp = 1; description = none }
      ∷ record { root = sevens; timestamp = 2; description = none }
      ∷ [];
  files = none;
}

get-delete_example : Snapshot.get hex zero_hash (Snapshot.delete json file zero_hash two).1 ≡ none
get-delete_example = (get-delete hex json file zero_hash two).0
