-- ===== src/Storage/Cas/Fresh.antt =====
-- A `CasBackend` that was never written to.
use vo_e.Common.{
  ℕ, zero, suc, ◌+◌, ◌*◌, ◌^◌, ◌<◌, ◌≡◌, ◌≢◌, refl, ap, ◌∙◌, arith, Bytes, replicate, true, false,
  [], ◌++◌, Option, none, some, ok, ErrorKind, row, row_cong, length-replicate, replicate-append,
}
use vo_e.Blob.{Hash, zero_hash, BlobStore, BlobError, BlobLaws, HashLaws}
use vo_e.Tree
use vo_e.Tree.{lookup}
use vo_e.Tree.Depth.{calculate_depth-FitsDepth}
use vo_e.Tree.Shape.{lookup-eq-walk}
use vo_e.Tree.Keeps.{walk-zero_hash}
use vo_e.Tree.Correct.{IsWhole, IsTree-zero_hash}
use vo_e.Storage.Snapshot
use vo_e.Storage.Snapshot.{Hex, Json, SnapshotFile, SnapshotManager}
use vo_e.Storage.Cas.{Codec, retrieve_block}
use vo_e.Storage.Cas.Block.{CodecLaws}
use vo_e.Storage.Cas.Backend.{CasBackend}
use vo_e.Storage.Cas.Disk.{IsDisk, block_at}
use vo_e.Storage.Cas.Archive.{backend_info, new}
use vo_e.Storage.Cas.History.{IsArchive, bytes_of}

row-replicate : (i n : ℕ) → row {A = ℕ} i n (λ j. replicate 512 0) ≡ replicate (n * 512) 0
row-replicate i zero = refl
row-replicate i (suc n) =
    ap (λ b. replicate 512 0 ++ b) (row-replicate (suc i) n)
    ∙ replicate-append {A = ℕ} 512 (n * 512) 0
    ∙ ap (λ k. replicate k 0) (let e : 512 + n * 512 ≡ suc n * 512 = omega arith in e)

module _ {S : Type 0} (store : BlobStore S) (codec : Codec) (describe : BlobError → Bytes) where
  module _ (n : ℕ) (s : S) (some_sectors : n ≢ 0) (few : n < 2 ^ 55) where
    empty-IsWhole : IsWhole store (Tree.new zero_hash n) s
    unfolding Tree.new
    empty-IsWhole =
        let fits = calculate_depth-FitsDepth n some_sectors (omega (arith, few)) in
        record {
          room = fits.room;
          deep = fits.at_least_one;
          nodes = IsTree-zero_hash store (Tree.calculate_depth n) s;
        }

    empty-lookup : (j : ℕ) → j < n → lookup store (Tree.new zero_hash n) j s ≡ ok zero_hash
    unfolding Tree.new
    empty-lookup j inside =
        lookup-eq-walk store (Tree.new zero_hash n) j s inside empty-IsWhole.room empty-IsWhole.deep
        ∙ walk-zero_hash store (Tree.calculate_depth n) j s

    zeros : retrieve_block store codec describe zero_hash s ≡ ok (replicate 512 0)
    unfolding retrieve_block
    zeros = refl

    pub empty-IsDisk : IsDisk store codec describe (Tree.new zero_hash n) s
    unfolding Tree.new
    empty-IsDisk = record {
      whole = empty-IsWhole;
      root = refl;
      sectors = λ j inside. (
        zero_hash,
        replicate 512 0,
        empty-lookup j inside,
        zeros,
        length-replicate {A = ℕ} 512 0,
      );
    }

    pub empty-block_at :
        (j : ℕ) → j < n → block_at store codec describe (Tree.new zero_hash n) s j ≡ replicate 512 0
    empty-block_at j inside = rw (empty-lookup j inside, zeros) refl

module _ {S F : Type 0} (from_data : Bytes → Hash) (store : BlobStore S) (codec : Codec)
    (describe : BlobError → Bytes) (Known : Bytes → Type 0) (hash_laws : HashLaws from_data Known)
    (laws : BlobLaws from_data store Known) (codec_laws : CodecLaws codec) (hex : Hex) (json : Json)
    (file : SnapshotFile F) (describe_io : ErrorKind → Bytes) where
  -- For 1 to 2^55 - 1 sectors, an intact blob store and no file of snapshots: `new` returns a backend
  -- that is ready and has ready snapshots, and whose bytes are all zero.
  pub new-IsArchive :
      (n : ℕ) (serial firmware : Bytes) (s : S) (f : F)
      → n ≢ 0
      → n < 2 ^ 55
      → laws.IsIntact s
      → file.exists f ≡ false
      → (b : CasBackend S F) × (new hex json file describe_io serial firmware n s f ≡ ok b)
        × IsArchive from_data store codec describe Known hash_laws laws codec_laws hex json file
            describe_io b
        × (bytes_of from_data store codec describe Known hash_laws laws codec_laws hex json file
              describe_io b
            ≡ replicate (n * 512) 0)
  unfolding new Snapshot.new Snapshot.get Snapshot.latest
  new-IsArchive n serial firmware s f some_sectors few intact absent =
      let m : SnapshotManager F = record { snapshots = []; files = f } in
      let loaded : Snapshot.new json file f ≡ ok m = rw absent refl in
      (
        record {
          blobs = s;
          root_hash = zero_hash;
          info = backend_info serial firmware n;
          snapshots = m;
          compress = true;
        },
        rw loaded refl,
        (
          (refl, few, empty-IsDisk store codec describe n s some_sectors few, intact),
          λ id h found. absurd (let bad : ◌≡◌ {A = Option Hash} none (some h) = found in cc),
        ),
        row_cong 0 n _ _ (λ j _ inside.
              empty-block_at store codec describe n s some_sectors few j (omega (arith, inside)))
            ∙ row-replicate 0 n,
      )
