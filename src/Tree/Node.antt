-- ===== src/Tree/Node.antt =====
-- `extract_hash` and `set_hash`: a node of 4096 bytes is an array of 128 hashes.
use vo_e.Common.{
  ℕ, zero, suc, ◌+◌, ◌-◌, ◌*◌, ◌≤◌, ◌<◌, ◌≡◌, ◌≢◌, refl, sym, ap, ◌∙◌, inl, inr, arith, Bytes, List,
  [], ◌∷◌, ◌++◌, length, take, drop, replicate, length-append, length-take, length-drop,
  length-replicate, take-append, drop-append, drop-drop, Bool-cases, ltb, ltb_of_le, leb_of_le,
}
use mathlib.Core.Path.{ap₂}
use native.Mathlib.Decide.{dec_lt}
use vo_e.Blob.{Hash, zero_hash}
use vo_e.Tree.{hash_size, block_size, extract_hash, set_hash}

module _ {A : Type 0} where
  -- A slice that ends before what follows the first `s` elements.
  slice-take_append :
      (b k s : ℕ) (xs ys : List A)
      → b + k ≤ s
      → s ≤ length xs
      → take k (drop b (take s xs ++ ys)) ≡ take k (drop b xs)
  slice-take_append zero zero s xs ys h m = refl
  slice-take_append zero (suc k) zero xs ys h m = absurd (omega arith)
  slice-take_append zero (suc k) (suc s) [] ys h m = absurd (omega arith)
  slice-take_append zero (suc k) (suc s) (x ∷ xs) ys h m =
      ap (λ t. x ∷ t) (slice-take_append zero k s xs ys (omega arith) (omega arith))
  slice-take_append (suc b) k zero xs ys h m = absurd (omega arith)
  slice-take_append (suc b) k (suc s) [] ys h m = absurd (omega arith)
  slice-take_append (suc b) k (suc s) (x ∷ xs) ys h m =
      slice-take_append b k s xs ys (omega arith) (omega arith)

  drop-prefix :
      (b n : ℕ) (xs ys : List A) → length xs ≡ n → n ≤ b → drop b (xs ++ ys) ≡ drop (b - n) ys
  drop-prefix b n [] ys h m = ap (λ k. drop k ys) (omega arith)
  drop-prefix zero n (x ∷ xs) ys h m = absurd (omega arith)
  drop-prefix (suc b) n (x ∷ xs) ys h m =
      drop-prefix b (n - 1) xs ys (omega arith) (omega arith)
      ∙ ap (λ k. drop k ys) (let e : b - (n - 1) ≡ suc b - n = omega arith in e)

  -- Dropping past a part that was replaced by one as long.
  drop-splice :
      (b s : ℕ) (xs h : List A)
      → s + length h ≤ b
      → s ≤ length xs
      → drop b (take s xs ++ (h ++ drop (s + length h) xs)) ≡ drop b xs
  drop-splice b s xs h m fits =
      drop-prefix b s (take s xs) _ (omega (arith, length-take s xs)) (omega arith)
      ∙ drop-prefix (b - s) (length h) h _ refl (omega arith)
      ∙ drop-drop (b - s - length h) (s + length h) xs
      ∙ ap (λ k. drop k xs) (omega arith)

  take-replicate : (k n : ℕ) (a : A) → k ≤ n → take k (replicate n a) ≡ replicate k a
  take-replicate zero n a h = refl
  take-replicate (suc k) zero a h = absurd (omega arith)
  take-replicate (suc k) (suc n) a h = ap (λ t. a ∷ t) (take-replicate k n a (omega arith))

  drop-replicate : (b n : ℕ) (a : A) → drop b (replicate n a) ≡ replicate (n - b) a
  drop-replicate zero n a = ap (λ k. replicate k a) (omega arith)
  drop-replicate (suc b) zero a = ap (λ k. replicate k a) (let e : 0 ≡ 0 - suc b = omega arith in e)
  drop-replicate (suc b) (suc n) a =
      drop-replicate b n a
      ∙ ap (λ k. replicate k a) (let e : n - b ≡ suc n - suc b = omega arith in e)

extract_hash-eq-slice :
    (node : Bytes) (index : ℕ)
    → index * 32 + 32 ≤ length node
    → extract_hash node index ≡ take 32 (drop (index * 32) node)
unfolding extract_hash
extract_hash-eq-slice node index h = rw (ltb_of_le _ _ h)

-- A fresh node holds the zero hash everywhere.
pub extract_hash-replicate : (n index : ℕ) → extract_hash (replicate n 0) index ≡ zero_hash
unfolding extract_hash
extract_hash-replicate n index = elim (Bool-cases (ltb n (index * 32 + 32))) [
  | inl short ↦ rw (length-replicate, short)
  | inr long ↦
      rw (length-replicate, long)
        (ap (take 32) (drop-replicate (index * 32) n 0)
          ∙ take-replicate 32 (n - index * 32) 0 (ground arith))
]

module _ (node : Bytes) (i : ℕ) (h : Hash) (size : length node ≡ block_size) (fits : i < 128)
    (wide : length h ≡ hash_size) where
  spliced : Bytes
  spliced = take (i * 32) node ++ (h ++ drop (i * 32 + length h) node)

  set_hash-eq-spliced : set_hash node i h ≡ spliced
  unfolding set_hash spliced
  set_hash-eq-spliced =
      rw (leb_of_le (i * 32 + 32) (length node) (omega arith))
        (ap (λ k. take (i * 32) node ++ (h ++ drop (i * 32 + k) node)) (sym wide))

  length-spliced : length spliced ≡ block_size
  unfolding spliced
  length-spliced = omega (
    arith,
    length-append (take (i * 32) node) (h ++ drop (i * 32 + length h) node),
    length-append h (drop (i * 32 + length h) node),
    length-take (i * 32) node,
    length-drop (i * 32 + length h) node,
  )

  -- A write of a hash into a node keeps its size.
  pub length-set_hash : length (set_hash node i h) ≡ block_size
  length-set_hash = rw set_hash-eq-spliced length-spliced

  -- A hash is read back where it was written.
  pub extract_hash-set_hash_self : extract_hash (set_hash node i h) i ≡ h
  unfolding spliced
  extract_hash-set_hash_self =
      ap (λ t. extract_hash t i) set_hash-eq-spliced
      ∙ extract_hash-eq-slice spliced i (omega (arith, length-spliced))
      ∙ ap (take 32)
          (drop-append (i * 32) (take (i * 32) node) _ (omega (arith, length-take (i * 32) node)))
      ∙ take-append 32 h _ wide

  slice-spliced :
      (j : ℕ) → j < 128 → i ≢ j → take 32 (drop (j * 32) spliced) ≡ take 32 (drop (j * 32) node)
  unfolding spliced
  slice-spliced j small differ = elim (dec_lt j i) [
    | yes before ↦ slice-take_append (j * 32) 32 (i * 32) node _ (omega arith) (omega arith)
    | no after ↦ ap (take 32) (drop-splice (j * 32) (i * 32) node h (omega arith) (omega arith))
  ]

  -- A write leaves the hashes at the other indices alone.
  pub extract_hash-set_hash_ne :
      (j : ℕ) → j < 128 → i ≢ j → extract_hash (set_hash node i h) j ≡ extract_hash node j
  extract_hash-set_hash_ne j small differ =
      ap (λ t. extract_hash t j) set_hash-eq-spliced
      ∙ extract_hash-eq-slice spliced j (omega (arith, length-spliced))
      ∙ slice-spliced j small differ
      ∙ sym (extract_hash-eq-slice node j (omega arith))

  slice_self : take (i * 32) spliced ≡ take (i * 32) node
  unfolding spliced
  slice_self = slice-take_append 0 (i * 32) (i * 32) node _ (omega arith) (omega arith)

  rest_self : drop (i * 32 + length h) spliced ≡ drop (i * 32 + length h) node
  unfolding spliced
  rest_self = drop-splice (i * 32 + length h) (i * 32) node h (omega arith) (omega arith)

-- A second write of the same hash changes nothing.
pub set_hash-set_hash :
    (node : Bytes) (i : ℕ) (h : Hash)
    → length node ≡ block_size
    → i < 128
    → length h ≡ hash_size
    → set_hash (set_hash node i h) i h ≡ set_hash node i h
unfolding spliced
set_hash-set_hash node i h size fits wide =
    let once = set_hash-eq-spliced node i h size fits wide in
    set_hash-eq-spliced (set_hash node i h) i h (length-set_hash node i h size fits wide) fits wide
    ∙ ap (λ n. take (i * 32) n ++ (h ++ drop (i * 32 + length h) n)) once
    ∙ ap₂ (λ a b. a ++ (h ++ b)) (slice_self node i h size fits wide)
        (rest_self node i h size fits wide)
    ∙ sym once
