-- ===== src/Storage/Cas/Refines.antt =====
-- What a client of the block device sees of a `CasBackend`: a row of bytes.
use vo_e.Common.{
  ℕ, ◌+◌, ◌*◌, ◌≤◌, ◌≡◌, refl, subst, Bytes, inl, inr, length, List, [], ◌∷◌, Outcome, ok, err,
  Outcome-cases,
}
use vo_e.Blob.{Hash, BlobStore, BlobError, BlobLaws, HashLaws}
use vo_e.Storage.{StorageError}
use vo_e.Storage.Laws.{slice, put_at}
use vo_e.Storage.Cas.{Codec}
use vo_e.Storage.Cas.Block.{CodecLaws}
use vo_e.Storage.Cas.Backend.{CasBackend, read, write, flush}
use vo_e.Storage.Cas.Laws.{IsReady, disk, Accepts, read-eq-slice, write-Atomic, flush-keeps}

-- The calls of a client: sectors from one on to read, whole sectors to write, and flushes.
pub data Request : Type 0 where
  reads : ℕ → ℕ → Request
  writes : ℕ → ℕ → Bytes → Request
  flushes : Request

pub data Answer : Type 0 where
  contents : Bytes → Answer
  done : Answer
  failed : StorageError → Answer

-- The specification, a row of bytes: which answers to which requests it may give, and the bytes that it
-- has at the end. A read is answered with its bytes; a write either puts its data in place or fails
-- and changes nothing; a flush changes nothing.
abbrev pub Explains : List Request → List Answer → Bytes → Bytes → Type 0
Explains [] [] x y = y ≡ x
Explains [] (a ∷ answers) x y = ⊥
Explains (r ∷ requests) [] x y = ⊥
Explains (reads lba count ∷ requests) (contents d ∷ answers) x y =
    (d ≡ slice (lba * 512) (count * 512) x) × Explains requests answers x y
Explains (reads lba count ∷ requests) (done ∷ answers) x y = ⊥
Explains (reads lba count ∷ requests) (failed e ∷ answers) x y = ⊥
Explains (writes lba count d ∷ requests) (contents c ∷ answers) x y = ⊥
Explains (writes lba count d ∷ requests) (done ∷ answers) x y =
    Explains requests answers (put_at (lba * 512) d x) y
Explains (writes lba count d ∷ requests) (failed e ∷ answers) x y = Explains requests answers x y
Explains (flushes ∷ requests) (contents c ∷ answers) x y = ⊥
Explains (flushes ∷ requests) (done ∷ answers) x y = Explains requests answers x y
Explains (flushes ∷ requests) (failed e ∷ answers) x y = Explains requests answers x y

-- The answer that an outcome is.
abbrev pub answer_of : {A : Type 0} → (A → Answer) → Outcome StorageError A → Answer
answer_of f (ok a) = f a
answer_of f (err e) = failed e

module _ {S F : Type 0} (from_data : Bytes → Hash) (store : BlobStore S) (codec : Codec)
    (describe : BlobError → Bytes) where
  -- One request, and a sequence of them, one after the other.
  abbrev pub step : Request → CasBackend S F → Answer × CasBackend S F
  step (reads lba count) b =
      let (r, b') = read from_data store codec describe lba count b in (answer_of contents r, b')
  step (writes lba count d) b =
      let (r, b') = write from_data store codec describe lba d b in (answer_of (λ _. done) r, b')
  step flushes b =
      let (r, b') = flush from_data store codec describe b in (answer_of (λ _. done) r, b')

  unfoldable pub run : List Request → CasBackend S F → List Answer × CasBackend S F
  run [] b = ([], b)
  run (r ∷ requests) b =
      let (answers, b') = run requests (step r b).1 in ((step r b).0 ∷ answers, b')

  module _ (Known : Bytes → Type 0) (hash_laws : HashLaws from_data Known)
      (laws : BlobLaws from_data store Known) (codec_laws : CodecLaws codec) where
    abbrev Ready : CasBackend S F → Type 0
    Ready b = IsReady from_data store codec describe Known hash_laws laws codec_laws b

    abbrev pub bytes : CasBackend S F → Bytes
    bytes b = disk from_data store codec describe Known hash_laws laws codec_laws b

    -- A read is within the disk, and a write too, of at most 256 sectors that the backend accepts.
    abbrev pub IsPermitted : Request → CasBackend S F → Type 0
    IsPermitted (reads lba count) b = lba + count ≤ b.info.total_sectors
    IsPermitted (writes lba count d) b =
        (lba + count ≤ b.info.total_sectors)
        × (count ≤ 256)
        × (length d ≡ count * 512)
        × Accepts from_data store codec describe Known hash_laws laws codec_laws lba d b
    IsPermitted flushes b = Unit

    -- Each of the requests is permitted when its turn comes.
    abbrev pub ArePermitted : List Request → CasBackend S F → Type 0
    ArePermitted [] b = Unit
    ArePermitted (r ∷ requests) b = IsPermitted r b × ArePermitted requests (step r b).1

    -- From a ready backend, any permitted sequence of reads, writes and flushes: the answers are some
    -- that the specification gives from the disk's bytes, the disk's bytes at the end are then its
    -- bytes, and the backend is ready.
    pub run-Explains :
        (requests : List Request) (b : CasBackend S F)
        → Ready b
        → ArePermitted requests b
        → Explains requests (run requests b).0 (bytes b) (bytes (run requests b).1)
          × Ready (run requests b).1
    unfolding run
    run-Explains [] b ready permitted = (refl, ready)
    run-Explains (reads lba count ∷ requests) b ready (fits, permitted) =
        let e =
          read-eq-slice from_data store codec describe Known hash_laws laws codec_laws b lba count
            ready fits in
        let (rest, ready') = run-Explains requests b ready (
          subst (λ (m : Outcome StorageError Bytes × CasBackend S F). ArePermitted requests m.1) e
            permitted) in
        rw e ((refl, rest), ready')
    run-Explains (writes lba count d ∷ requests) b ready ((fits, few, l, accepts), permitted) =
        let m = write from_data store codec describe lba d b in
        let (ready1, _, outcome) =
          write-Atomic from_data store codec describe Known hash_laws laws codec_laws b lba count d
            ready fits few l accepts in
        let (rest, ready') = run-Explains requests m.1 ready1 permitted in
        let next = run requests m.1 in
        let from : Bytes → Type 0 = λ x. Explains requests next.0 x (bytes next.1) in
        (
          elim outcome [
            | inl (returned, placed) ↦ rw returned (subst from placed rest)
            | inr (e, refused, kept) ↦ rw refused (subst from kept rest)
          ],
          ready',
        )
    run-Explains (flushes ∷ requests) b ready (_, permitted) =
        let m = flush from_data store codec describe b in
        let (ready1, kept, _) =
          flush-keeps from_data store codec describe Known hash_laws laws codec_laws b ready in
        let (rest, ready') = run-Explains requests m.1 ready1 permitted in
        let next = run requests m.1 in
        let after = subst (λ x. Explains requests next.0 x (bytes next.1)) kept rest in
        (
          elim (Outcome-cases m.0) [
            | inl (_, returned) ↦ rw returned after
            | inr (e, refused) ↦ rw refused after
          ],
          ready',
        )
