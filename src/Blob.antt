-- ===== src/Blob.antt =====
-- src/blob/mod.rs: hashes, the errors of a blob store, and the trait `BlobStore` with what its
-- documentation promises. BLAKE3 is not part of the repository: it is a parameter `from_data` of
-- all that hashes.
pub mod File
use vo_e.Common.{ℕ, Bytes, ◌≡◌, Bool, false, replicate, length, bytes_eq, Outcome, ok, ErrorKind}
use vo_e.Common.Io.{Io}

-- `[u8; 32]`
abbrev pub Hash : Type 0
Hash = Bytes

abbrev pub zero_hash : Hash
zero_hash = replicate 32 0

abbrev pub is_zero : Hash → Bool
is_zero h = bytes_eq h zero_hash

-- The message of `BlobError::Backend`, by its format and arguments.
pub data Message : Type 0 where
  lba_out_of_range : ℕ → ℕ → Message

-- A hash stands for its hexadecimal form in a message.
pub data BlobError : Type 0 where
  not_found : Hash → BlobError
  corrupted : Hash → BlobError
  hash_mismatch : Hash → Hash → BlobError
  io : ErrorKind → BlobError
  backend : Message → BlobError
  quorum_not_met : BlobError

-- The trait over a store's state `S`. `&self` methods that write change the state.
pub record BlobStore (S : Type 0) : Type 0 where
  pub put : Hash → Bytes → Io S BlobError (Unit {0})
  pub get : Hash → S → Outcome BlobError Bytes
  pub exists : Hash → S → Outcome BlobError Bool
  pub delete : Hash → Io S BlobError (Unit {0})
  pub sync : Io S BlobError (Unit {0})

-- What the trait promises of blobs stored under their own hash, for the blobs in `Known`: the set on
-- which the hash function is taken to have no collision. A failed `put` may have changed the state,
-- and still loses nothing.
pub record BlobLaws {S : Type 0} (from_data : Bytes → Hash) (store : BlobStore S)
    (Known : Bytes → Type 0) : Type 1 where
  pub IsIntact : S → Type 0
  pub put-IsIntact :
      (s : S) (d : Bytes) → Known d → IsIntact s → IsIntact (store.put (from_data d) d s).1
  pub get-put :
      (s : S) (d : Bytes)
      → Known d
      → IsIntact s
      → (store.put (from_data d) d s).0 ≡ ok tt
      → store.get (from_data d) (store.put (from_data d) d s).1 ≡ ok d
  pub get-put_keeps :
      (s : S) (d : Bytes) (k : Hash) (x : Bytes)
      → Known d
      → IsIntact s
      → store.get k s ≡ ok x
      → store.get k (store.put (from_data d) d s).1 ≡ ok x
  pub sync-IsIntact : (s : S) → IsIntact s → IsIntact (store.sync s).1
  pub get-sync : (s : S) (k : Hash) → IsIntact s → store.get k (store.sync s).1 ≡ store.get k s

-- What the tree relies on of the hash function, for the blobs in `Known`.
pub record HashLaws (from_data : Bytes → Hash) (Known : Bytes → Type 0) : Type 0 where
  pub length-from_data : (d : Bytes) → length (from_data d) ≡ 32
  pub from_data-ne-zero : (d : Bytes) → Known d → is_zero (from_data d) ≡ false
