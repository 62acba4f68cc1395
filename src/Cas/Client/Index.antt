-- ===== src/Cas/Client/Index.antt =====
-- The index of the CAS client after a write, and its answer from the repository's own server.
use vo_e.Common.{
  ℕ, zero, suc, ◌+◌, ◌*◌, ◌%◌, ◌^◌, ◌≤◌, ◌<◌, ◌≡◌, ◌≢◌, ◌⊎◌, inl, inr, refl, sym, ap, ◌∙◌, arith,
  Bytes, codes, Bool-cases, false, ◌==◌, ==_iff, length, some, List, [], ◌∷◌, ◌++◌, Outcome, ok,
  err, ok_inj, ErrorKind,
}
use vo_e.Common.Io.{Io, lift, ◌>>=◌, >>=-eq-ok, >>-eq-ok}
use vo_e.Common.Stream.{Reader, Writer, ReaderLaws, WriterLaws}
use vo_e.Storage.{StorageError}
use vo_e.Cas.{CasCommand, hash_response, read_frame, write_frame, write_response}
use vo_e.Cas.Frames.{read_frame-write_response}
use vo_e.Cas.Client.{
  sector_size, LbaIndex, get, remove, insert, IndexFile, Client, on_reader, on_writer, write_answer,
  write_to_cas, map_sector, write_sector, padded, write_sectors, write,
}

get-remove : (j k : ℕ) (m : List (ℕ × Bytes)) → j ≢ k → get j (remove k m) ≡ get j m
get-remove j k [] differ = refl
get-remove j k ((x, hash) ∷ rest) differ = elim (Bool-cases (x == k)) [
  | inl e ↦
      let off : (x == j) ≡ false = ground (arith, e, differ) in
      rw (e, off) (get-remove j k rest differ)
  | inr e ↦ elim (Bool-cases (x == j)) [
    | inl here ↦ rw (e, here) refl
    | inr other ↦ rw (e, other) (get-remove j k rest differ)
  ]
]

pub get-insert_self :
    (k : ℕ) (hash : Bytes) (m : List (ℕ × Bytes)) → get k (insert k hash m) ≡ some hash
get-insert_self k hash m = rw ((==_iff k k).1 refl) refl

pub get-insert_ne :
    (j k : ℕ) (hash : Bytes) (m : List (ℕ × Bytes)) → j ≢ k → get j (insert k hash m) ≡ get j m
get-insert_ne j k hash m differ =
    let off : (k == j) ≡ false = ground (arith, differ) in rw off (get-remove j k m differ)

write_answer-ok : (a : CasCommand × Bytes) (h : Bytes) → write_answer a ≡ ok h → length h ≡ 32
write_answer-ok (CasCommand.write, hash) h e = elim (Bool-cases (length hash == 32)) [
  | inl wide ↦ ap length (sym (ok_inj (rw wide at e))) ∙ (==_iff (length hash) 32).0 wide
  | inr other ↦
      absurd (let bad : ◌≡◌ {A = Outcome StorageError Bytes} (err _) (ok h) = rw other at e in cc)
]
write_answer-ok (CasCommand.read, hash) h e = cc
write_answer-ok (CasCommand.exists, hash) h e = cc
write_answer-ok (CasCommand.ping, hash) h e = cc
write_answer-ok (CasCommand.delete, hash) h e = cc

module _ {R W F : Type 0} (reader : Reader R) (writer : Writer W) (file : IndexFile F)
    (describe : ErrorKind → Bytes) where
  abbrev put_cas : Bytes → Io (Client R W F) StorageError Bytes
  put_cas d = write_to_cas reader writer file describe d

  pub put_cas-ok :
      (d : Bytes) (c : Client R W F) (h : Bytes)
      → (put_cas d c).0 ≡ ok h
      → (length h ≡ 32) × ((put_cas d c).1.index ≡ c.index)
  unfolding write_to_cas
  put_cas-ok d c h done =
      let m1 =
        on_writer reader writer file describe (codes "failed to write to CAS: ")
          (write_frame writer CasCommand.write d) in
      let m2 =
        on_reader reader writer file describe (codes "failed to read CAS write response: ")
          (read_frame reader) in
      let (u, sent, rest) = >>=-eq-ok m1 (λ _. m2 >>= λ a. lift (write_answer a)) c done in
      let (a, got, answered) = >>=-eq-ok m2 (λ a. lift (write_answer a)) (m1 c).1 rest in
      (write_answer-ok a h answered, rw (sent, got) refl)

  abbrev put_sector : ℕ → Bytes → Io (Client R W F) StorageError (Unit {0})
  put_sector lba d = write_sector reader writer file describe lba d

  put_sector-ok :
      (lba : ℕ) (d : Bytes) (c : Client R W F)
      → (put_sector lba d c).0 ≡ ok tt
      → (h : Bytes) × (length h ≡ 32)
        × ((put_sector lba d c).1.index.mappings ≡ insert lba h c.index.mappings)
  unfolding write_sector
  put_sector-ok lba d c done =
      let (h, put, _) = >>=-eq-ok (put_cas d) (map_sector reader writer file describe lba) c done in
      let (wide, same) = put_cas-ok d c h put in
      (h, wide, rw put (ap (λ (i : LbaIndex). insert lba h i.mappings) same))

  -- The sectors from `first` on have hashes of 32 bytes, and the others those that they had.
  abbrev pub Mapped : ℕ → ℕ → List (ℕ × Bytes) → List (ℕ × Bytes) → Type 0
  Mapped first count m m' =
      ((j : ℕ) → (j < first) ⊎ (first + count ≤ j) → get j m' ≡ get j m)
      × ((j : ℕ)
          → first ≤ j
          → j < first + count
          → (h : Bytes) × (get j m' ≡ some h) × (length h ≡ 32))

  pub write_sectors-Mapped :
      (count i lba : ℕ) (d : Bytes) (c : Client R W F)
      → lba + i + count < 2 ^ 64
      → (write_sectors reader writer file describe count i lba d c).0 ≡ ok tt
      → Mapped
          (lba + i)
          count
          c.index.mappings
          (write_sectors reader writer file describe count i lba d c).1.index.mappings
  unfolding write_sectors
  write_sectors-Mapped zero i lba d c small done =
      (λ j other. refl, λ j lo hi. absurd (omega (arith, lo, hi)))
  write_sectors-Mapped (suc count) i lba d c small done =
      let n = (lba + i) % 2 ^ 64 in
      let same : n ≡ lba + i = omega (arith, small) in
      let m1 = put_sector n (padded reader writer file describe d (i * sector_size)) in
      let k = write_sectors reader writer file describe count (suc i) lba d in
      let (first, rest, at) = >>-eq-ok m1 k c done in
      let (h, wide, put) =
        put_sector-ok n (padded reader writer file describe d (i * sector_size)) c first in
      let c1 = (m1 c).1 in
      let (outside, inside) =
        write_sectors-Mapped count (suc i) lba d c1 (omega (arith, small)) rest in
      let after =
        ap (λ (r : Outcome StorageError (Unit {0}) × Client R W F). r.1.index.mappings) at in
      let past : lba + suc i ≡ suc (lba + i) = omega arith in
      (
        λ j other.
            let differ : j ≢ n = (λ e. elim other [
              | inl lo ↦ omega (arith, lo, e, same)
              | inr hi ↦ omega (arith, hi, e, same)
            ]) in
            ap (get j) after
            ∙ outside j
                (elim other [ inl lo ↦ inl (omega (arith, lo)) | inr hi ↦ inr (omega (arith, hi)) ])
            ∙ ap (get j) put
            ∙ get-insert_ne j n h c.index.mappings differ,
        λ j lo hi. elim (Bool-cases (j == lba + i)) [
          | inl here ↦
              let j_n : j ≡ n = ground (arith, here, same) in
              (
                h,
                ap (get j) after
                    ∙ outside j (inl (omega (arith, j_n, same)))
                    ∙ ap (get j) put
                    ∙ ap (λ x. get x (insert n h c.index.mappings)) j_n
                    ∙ get-insert_self n h c.index.mappings,
                wide,
              )
          | inr there ↦
              let later : lba + suc i ≤ j = ground (arith, there, lo, past) in
              let (h', found, wide') = inside j later (omega (arith, hi)) in
              (h', ap (get j) after ∙ found, wide')
        ],
      )

  -- A client whose request was sent, and whose connection brings the answer that the repository's
  -- server writes for a stored hash of 16 bytes: the write fails, with the answer taken for an invalid one.
  pub write_to_cas-server_hash :
      {V : Type 0} (reads : ReaderLaws reader) (server : Writer V) (writes : WriterLaws server)
      (d hash rest : Bytes) (v : V) (c : Client R W F)
      → length hash ≡ 16
      → writes.written v ≡ []
      → (write_response server (hash_response hash) v).0 ≡ ok tt
      → reads.pending c.reader
        ≡ writes.written (write_response server (hash_response hash) v).1 ++ rest
      → (write_frame writer CasCommand.write d c.writer).0 ≡ ok tt
      → (put_cas d c).0 ≡ err (StorageError.backend (codes "invalid CAS write response"))
  unfolding write_to_cas
  write_to_cas-server_hash reads server writes d hash rest v c short none_before answered arrived
        sent =
      let (got, _) =
        read_frame-write_response reader reads server writes (hash_response hash) rest v c.reader
          refl (let small : length hash < 2 ^ 32 = omega (arith, short) in small) none_before
          answered arrived in
      let narrow : (length hash == 32) ≡ false = ground (arith, short) in
      rw (sent, got, narrow) refl
