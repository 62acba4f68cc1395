-- ===== src/Blob/File/Laws.antt =====
-- `FileBlobStore` keeps the promises of the trait `BlobStore`.
use vo_e.Common.{
  Bytes, ◌≡◌, ◌≢◌, refl, sym, ap, ◌∙◌, subst, inl, inr, false, Option, none, some, Option-cases,
  Outcome, ok, err, ErrorKind, bytes_eq, bytes_eq_iff, bytes_eq_self, Bool-cases, Outcome-cases,
  ok_inj, ◌⊎◌, map_err-eq-ok, map_err-eq-err,
}
use mathlib.Core.Bool.{false≢true}
use vo_e.Common.Io.{Io, map_err, ◌>>◌, >>-eq-ok, >>_keeps, >>_keeps_err}
use vo_e.Blob.{Hash, BlobError, BlobLaws}
use vo_e.Blob.File.{
  sync, FilePath, Fs, FsLaws, path_for, dir_for, write_file, put, get, file_blob_store,
}
use vo_e.Blob.File.Write.{write, write_keeps, write_failed, write_ok, path_for_inj, rename-ne}

module _ {D : Type 0} (from_data : Bytes → Hash) (hex_encode : Bytes → Bytes) (fs : Fs D)
    (laws : FsLaws fs) (hex_inj : (a b : Hash) → hex_encode a ≡ hex_encode b → a ≡ b) where
  open laws use {content}

  abbrev pub read_back : Hash → D → Option Bytes
  read_back h d = content (path_for hex_encode h) d

  abbrev store_blob : Bytes → D → Outcome BlobError (Unit {0}) × D
  store_blob b d = put from_data hex_encode fs (from_data b) b d

  -- A blob that is there is not written again.
  put_present :
      (b x : Bytes) (d : D) → read_back (from_data b) d ≡ some x → store_blob b d ≡ (ok tt, d)
  unfolding put
  put_present b x d e = rw (laws.exists_some _ d x e)

  abbrev write_blob : Bytes → Io D ErrorKind (Unit {0})
  write_blob b =
      fs.create_dir_all (dir_for hex_encode (from_data b))
      >> write_file from_data hex_encode fs (path_for hex_encode (from_data b)) b

  put_absent :
      (b : Bytes) (d : D)
      → read_back (from_data b) d ≡ none
      → store_blob b d ≡ map_err BlobError.io (write_blob b) d
  unfolding put
  put_absent b d e = rw (laws.exists_none _ d e, bytes_eq_self (from_data b))

  path_for_tmp : (h : Hash) → (path_for hex_encode h).tmp ≡ false
  unfolding path_for
  path_for_tmp h = refl

  -- Other blobs stay as they are.
  put_other :
      (b : Bytes) (d : D) (k : Hash)
      → k ≢ from_data b
      → read_back k (store_blob b d).1 ≡ read_back k d
  put_other b d k differ = elim (Option-cases (read_back (from_data b) d)) [
    | inr (x, e) ↦
        ap (λ (r : Outcome BlobError (Unit {0}) × D). read_back k r.1) (put_present b x d e)
    | inl e ↦
        ap (λ (r : Outcome BlobError (Unit {0}) × D). read_back k r.1) (put_absent b d e)
        ∙ >>_keeps (read_back k) (fs.create_dir_all (dir_for hex_encode (from_data b)))
            (write from_data hex_encode fs laws hex_inj (path_for hex_encode (from_data b)) b)
            (laws.create_dir_all_keeps _ _)
            (λ s.
              write_keeps from_data hex_encode fs laws hex_inj (path_for hex_encode (from_data b)) b
                (path_for hex_encode k) s (path_for_tmp k)
                (λ u.
                  laws.rename_keeps _ _ _ u
                    (rename-ne from_data hex_encode fs laws hex_inj (path_for hex_encode k)
                      (path_for hex_encode (from_data b)) (path_for_tmp k))
                    (λ q.
                      differ
                        (path_for_inj from_data hex_encode fs laws hex_inj k (from_data b) q))))
            d
  ]

  module _ (Known : Bytes → Type 0)
      (no_collision : (a b : Bytes) → Known a → Known b → from_data a ≡ from_data b → a ≡ b) where
    -- Every blob on the disk is what its name says, and one of those taken into account.
    unfoldable pub IsIntact : D → Type 0
    IsIntact d = (h : Hash) (x : Bytes) → read_back h d ≡ some x → (from_data x ≡ h) × Known x

    put_ok :
        (b : Bytes) (d : D)
        → Known b
        → IsIntact d
        → (store_blob b d).0 ≡ ok tt
        → read_back (from_data b) (store_blob b d).1 ≡ some b
    unfolding IsIntact
    put_ok b d known intact done = elim (Option-cases (read_back (from_data b) d)) [
      | inr (x, e) ↦
          let (hashed, known') = intact (from_data b) x e in
          ap (λ (r : Outcome BlobError (Unit {0}) × D). read_back (from_data b) r.1)
            (put_present b x d e)
          ∙ e
          ∙ ap some (no_collision x b known' known hashed)
      | inl e ↦
          let path = path_for hex_encode (from_data b) in
          let as_written = put_absent b d e in
          let whole =
            map_err-eq-ok BlobError.io (write_blob b d).0
              (ap (λ (r : Outcome BlobError (Unit {0}) × D). r.0) (sym as_written) ∙ done) in
          let make_dir = fs.create_dir_all (dir_for hex_encode (from_data b)) in
          let (made, wrote, same) =
            >>-eq-ok make_dir (write from_data hex_encode fs laws hex_inj path b) d whole in
          ap (λ (r : Outcome BlobError (Unit {0}) × D). read_back (from_data b) r.1) as_written
          ∙ ap (λ (r : Outcome ErrorKind (Unit {0}) × D). read_back (from_data b) r.1) same
          ∙ write_ok from_data hex_encode fs laws hex_inj path b (make_dir d).1 wrote
    ]

    put_failed :
        (b : Bytes) (d : D) (e : BlobError)
        → (store_blob b d).0 ≡ err e
        → read_back (from_data b) (store_blob b d).1 ≡ read_back (from_data b) d
    put_failed b d e failed = elim (Option-cases (read_back (from_data b) d)) [
      | inr (x, p) ↦
          ap (λ (r : Outcome BlobError (Unit {0}) × D). read_back (from_data b) r.1)
            (put_present b x d p)
      | inl p ↦
          let path = path_for hex_encode (from_data b) in
          let as_written = put_absent b d p in
          let (k, whole) =
            map_err-eq-err BlobError.io (write_blob b d).0
              (ap (λ (r : Outcome BlobError (Unit {0}) × D). r.0) (sym as_written) ∙ failed) in
          ap (λ (r : Outcome BlobError (Unit {0}) × D). read_back (from_data b) r.1) as_written
          ∙ >>_keeps_err (read_back (from_data b))
              (fs.create_dir_all (dir_for hex_encode (from_data b)))
              (write from_data hex_encode fs laws hex_inj path b) (laws.create_dir_all_keeps _ _)
              (λ s e' r.
                write_failed from_data hex_encode fs laws hex_inj path b s e'
                  (path_for_tmp (from_data b)) r)
              d k whole
    ]

    -- What is under a name after a `put`: what was there, or the blob that was put.
    put_content :
        (b : Bytes) (d : D) (h : Hash)
        → Known b
        → IsIntact d
        → (read_back h (store_blob b d).1 ≡ read_back h d)
          ⊎ ((h ≡ from_data b) × (read_back h (store_blob b d).1 ≡ some b))
    put_content b d h known intact = elim (Bool-cases (bytes_eq h (from_data b))) [
      | inr differ ↦
          inl (put_other b d h (λ q. false≢true (sym differ ∙ (bytes_eq_iff h (from_data b)).1 q)))
      | inl same ↦
          let q = (bytes_eq_iff h (from_data b)).0 same in
          elim (Outcome-cases (store_blob b d).0) [
            | inl (tt, done) ↦
                inr (q, ap (λ k. read_back k (store_blob b d).1) q ∙ put_ok b d known intact done)
            | inr (e, failed) ↦ inl (
                ap (λ k. read_back k (store_blob b d).1) q
                ∙ put_failed b d e failed
                ∙ ap (λ k. read_back k d) (sym q))
          ]
    ]

    get_some :
        (h : Hash) (x : Bytes) (d : D)
        → read_back h d ≡ some x
        → from_data x ≡ h
        → get from_data hex_encode fs h d ≡ ok x
    unfolding get
    get_some h x d e hashed =
        rw (laws.exists_some _ d x e, laws.read_some _ d x e, hashed, bytes_eq_self h)

    get_none :
        (h : Hash) (d : D)
        → read_back h d ≡ none
        → get from_data hex_encode fs h d ≡ err (BlobError.not_found h)
    unfolding get
    get_none h d e = rw (laws.exists_none _ d e)

    get_ok :
        (h : Hash) (x : Bytes) (d : D)
        → get from_data hex_encode fs h d ≡ ok x
        → IsIntact d
        → read_back h d ≡ some x
    unfolding IsIntact
    get_ok h x d e intact = elim (Option-cases (read_back h d)) [
      | inl p ↦ cc (get_none h d p)
      | inr (y, p) ↦ p ∙ ap some (ok_inj (sym (get_some h y d p (intact h y p).0) ∙ e))
    ]

    put-IsIntact : (d : D) (b : Bytes) → Known b → IsIntact d → IsIntact (store_blob b d).1
    unfolding IsIntact
    put-IsIntact d b known intact h x e = elim (put_content b d h known intact) [
      | inl same ↦ intact h x (sym same ∙ e)
      | inr (q, new) ↦
          let same : b ≡ x = cc in subst (λ y. (from_data y ≡ h) × Known y) same (sym q, known)
    ]

    get-put_keeps :
        (d : D) (b : Bytes) (k : Hash) (x : Bytes)
        → Known b
        → IsIntact d
        → get from_data hex_encode fs k d ≡ ok x
        → get from_data hex_encode fs k (store_blob b d).1 ≡ ok x
    unfolding IsIntact
    get-put_keeps d b k x known intact e =
        let there = get_ok k x d e intact in
        let (hashed, known') = intact k x there in
        elim (put_content b d k known intact) [
          | inl same ↦ get_some k x (store_blob b d).1 (same ∙ there) hashed
          | inr (q, new) ↦
              let same : b ≡ x = no_collision b x known known' (sym q ∙ sym hashed) in
              get_some k x (store_blob b d).1 (new ∙ ap some same) hashed
        ]

    -- `FileBlobStore` keeps the trait's promises on a file system that keeps its own, for blobs
    -- without a hash collision.
    pub file_blob_store_laws : BlobLaws from_data (file_blob_store from_data hex_encode fs) Known
    unfolding file_blob_store sync
    file_blob_store_laws = record {
      IsIntact = IsIntact;
      put-IsIntact = put-IsIntact;
      get-put = λ d b known intact done.
          get_some (from_data b) b (store_blob b d).1 (put_ok b d known intact done) refl;
      get-put_keeps = get-put_keeps;
      sync-IsIntact = λ d intact. intact;
      get-sync = λ d k intact. refl;
    }

    -- A disk without blobs is intact.
    pub empty-IsIntact :
        (d : D) → ((p : FilePath) → content p d ≡ none) → file_blob_store_laws.IsIntact d
    unfolding file_blob_store_laws IsIntact
    empty-IsIntact d nothing h x e = cc (nothing (path_for hex_encode h))
