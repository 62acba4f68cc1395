-- ===== src/Storage/Cas/Block.antt =====
-- One block: it is stored, and read back.
use vo_e.Common.{
  ◌≡◌, refl, sym, ap, ◌∙◌, subst, arith, Bytes, Bool, true, false, Bool-cases, inl, inr, ltb,
  length, replicate, some, [], ◌∷◌, Outcome, ok, err, ok_inj, Outcome-cases, map_err as map_err_of,
  map_err-eq-ok,
}
use vo_e.Common.Io.{pure, map_err, ◌>>=◌, >>=-eq-ok, and_then-map_state}
use vo_e.Blob.{Hash, zero_hash, is_zero, BlobStore, BlobError, BlobLaws, HashLaws}
use vo_e.Tree.Keeps.{Keeps}
use vo_e.Storage.{StorageError}
use vo_e.Storage.Cas.{Codec, all_zero, encoded, decoded, as_backend, retrieve_block}
use vo_e.Storage.Cas.Backend.{store_block}

-- LZ4 gives back what it was given.
pub record CodecLaws (codec : Codec) : Type 0 where
  pub decompress-compress : (d : Bytes) → codec.decompress (codec.compress d) ≡ some d

-- A block comes back from its stored form, compressed or not.
pub decoded-encoded :
    (codec : Codec) (laws : CodecLaws codec) (compress : Bool) (d : Bytes)
    → decoded codec (encoded codec compress d) ≡ ok d
unfolding decoded encoded
decoded-encoded codec laws false d = refl
decoded-encoded codec laws true d = elim (Bool-cases (ltb (length (codec.compress d)) (length d))) [
  | inl shorter ↦ rw (shorter, laws.decompress-compress d) refl
  | inr longer ↦ rw longer refl
]

pub all_zero-eq-replicate : (d : Bytes) → all_zero d ≡ true → d ≡ replicate (length d) 0
all_zero-eq-replicate [] h = refl
all_zero-eq-replicate (b ∷ bs) h =
    let here : b ≡ 0 = ground (arith, h) in
    let rest : all_zero bs ≡ true = ground (arith, h) in
    rw here (ap (λ x. 0 ∷ x) (all_zero-eq-replicate bs rest))

module _ {S : Type 0} (store : BlobStore S) (codec : Codec) (describe : BlobError → Bytes) where
  -- What could be read can be read at a later state.
  pub retrieve_block-Keeps :
      {s t : S} (h : Hash) (d : Bytes)
      → Keeps store s t
      → retrieve_block store codec describe h s ≡ ok d
      → retrieve_block store codec describe h t ≡ ok d
  unfolding retrieve_block
  retrieve_block-Keeps {s} {t} h d keep e = elim (Bool-cases (is_zero h)) [
    | inl z ↦ rw z (rw z at e)
    | inr p ↦ elim (Outcome-cases (store.get h s)) [
      | inl (x, got) ↦ rw (p, keep h x got) (rw (p, got) at e)
      | inr (k, failed) ↦
          let bad : ◌≡◌ {A = Outcome StorageError Bytes} (err (as_backend store codec describe k))
              (ok d) =
            rw (p, failed) at e in
          cc
    ]
  ]

module _ {S : Type 0} (from_data : Bytes → Hash) (store : BlobStore S) (codec : Codec)
    (describe : BlobError → Bytes) (compress : Bool) (Known : Bytes → Type 0)
    (hash_laws : HashLaws from_data Known) (laws : BlobLaws from_data store Known)
    (codec_laws : CodecLaws codec) (d : Bytes) (s : S) (intact : laws.IsIntact s)
    (known : all_zero d ≡ false → Known (encoded codec compress d)) where
  abbrev stored : Outcome StorageError Hash × S
  stored = store_block from_data store codec describe compress d s

  -- Storing a block loses nothing, also when it fails.
  pub store_block-Keeps : laws.IsIntact stored.1 × Keeps store s stored.1
  unfolding store_block
  store_block-Keeps = elim (Bool-cases (all_zero d)) [
    | inl z ↦ rw z (intact, λ k x e. e)
    | inr nz ↦
        let x = encoded codec compress d in
        let known' = known nz in
        rw
          (
            nz,
            and_then-map_state
                (map_err_of (as_backend store codec describe) (store.put (from_data x) x s).0)
                (λ (_ : Unit {0}). from_data x) (store.put (from_data x) x s).1,
          )
          (laws.put-IsIntact s x known' intact, λ k y e. laws.get-put_keeps s x k y known' intact e)
  ]

  -- The hash that it returns stands for the block.
  pub store_block-retrieve :
      (h : Hash)
      → length d ≡ 512
      → stored.0 ≡ ok h
      → (length h ≡ 32) × (retrieve_block store codec describe h stored.1 ≡ ok d)
  unfolding store_block retrieve_block
  store_block-retrieve h wide e = elim (Bool-cases (all_zero d)) [
    | inl z ↦
        let same : zero_hash ≡ h = ok_inj (rw z at e) in
        let zeros : replicate 512 0 ≡ d =
          sym (all_zero-eq-replicate d z ∙ ap (λ n. replicate n 0) wide) in
        subst (λ x. (length x ≡ 32) × (retrieve_block store codec describe x stored.1 ≡ ok d)) same
          (refl, ap ok zeros)
    | inr nz ↦
        let x = encoded codec compress d in
        let m = map_err (as_backend store codec describe) (store.put (from_data x) x) in
        let e' : ((m >>= λ _. pure (from_data x)) s).0 ≡ ok h = rw nz at e in
        let (u, put_done, last) = >>=-eq-ok m (λ _. pure (from_data x)) s e' in
        let put_ok =
          map_err-eq-ok (as_backend store codec describe) (store.put (from_data x) x s).0
            put_done in
        let same : from_data x ≡ h = ok_inj last in
        let after : stored.1 ≡ (store.put (from_data x) x s).1 = rw (nz, put_ok) refl in
        let back : store.get (from_data x) stored.1 ≡ ok x =
          rw after (laws.get-put s x (known nz) intact put_ok) in
        subst (λ y. (length y ≡ 32) × (retrieve_block store codec describe y stored.1 ≡ ok d)) same
          (
            hash_laws.length-from_data x,
            rw (hash_laws.from_data-ne-zero x (known nz), back)
                (decoded-encoded codec codec_laws compress d),
          )
  ]
