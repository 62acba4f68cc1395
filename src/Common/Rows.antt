-- ===== src/Common/Rows.antt =====
-- Rows of blocks of one size, laid end to end.
use Prim.Native.Nat.{ℕ, zero, suc, ◌+◌, ◌*◌, ◌≤◌, ◌<◌}
use mathlib.Core.Path.{◌≡◌, refl, sym, ap, ◌∙◌}
use mathlib.Core.List.{List, [], ◌∷◌, ◌++◌, append_assoc}
use native.Mathlib.Omega.{arith}
use vo_e.Common.Lists.{length, take, drop, length-append, take-append, drop-append}

module _ {ℓ} {A : Type ℓ} where
  -- The blocks `f i` to `f (i + n - 1)`.
  abbrev pub row : ℕ → ℕ → (ℕ → List A) → List A
  row i zero f = []
  row i (suc n) f = f i ++ row (suc i) n f

  abbrev pub concat : List (List A) → List A
  concat [] = []
  concat (x ∷ xs) = x ++ concat xs

module _ {ℓ} {A : Type ℓ} where
  pub row_cong :
      (i n : ℕ) (f g : ℕ → List A)
      → ((j : ℕ) → i ≤ j → j < i + n → f j ≡ g j)
      → row i n f ≡ row i n g
  row_cong i zero f g h = refl
  row_cong i (suc n) f g h =
      ap (λ x. x ++ row (suc i) n f) (h i (omega arith) (omega arith))
      ∙ ap (λ x. g i ++ x) (row_cong (suc i) n f g (λ j lo hi. h j (omega arith) (omega arith)))

  pub row-append : (i m n : ℕ) (f : ℕ → List A) → row i (m + n) f ≡ row i m f ++ row (i + m) n f
  row-append i zero n f =
      ap (λ k. row i k f) (let e : zero + n ≡ n = omega arith in e)
      ∙ ap (λ k. row k n f) (let e : i ≡ i + zero = omega arith in e)
  row-append i (suc m) n f =
      ap (λ k. row i k f) (let e : suc m + n ≡ suc (m + n) = omega arith in e)
      ∙ ap (λ x. f i ++ x) (row-append (suc i) m n f)
      ∙ sym (append_assoc (f i) (row (suc i) m f) (row (suc i + m) n f))
      ∙ ap (λ k. (f i ++ row (suc i) m f) ++ row k n f)
          (let e : suc i + m ≡ i + suc m = omega arith in e)

  module _ (b : ℕ) where
    pub length-row :
        (i n : ℕ) (f : ℕ → List A)
        → ((j : ℕ) → i ≤ j → j < i + n → length (f j) ≡ b)
        → length (row i n f) ≡ n * b
    length-row i zero f h = omega arith
    length-row i (suc n) f h = omega (
      arith,
      length-append (f i) (row (suc i) n f),
      h i (omega arith) (omega arith),
      length-row (suc i) n f (λ j lo hi. h j (omega arith) (omega arith)),
    )

    module _ (lo count rest : ℕ) (f : ℕ → List A)
        (sized : (j : ℕ) → j < lo + (count + rest) → length (f j) ≡ b) where
      before : length (row 0 lo f) ≡ lo * b
      before = length-row 0 lo f (λ j _ hi. sized j (omega arith))

      middle : length (row lo count f) ≡ count * b
      middle = length-row lo count f (λ j _ hi. sized j (omega arith))

      parts :
          row 0 (lo + (count + rest)) f ≡ row 0 lo f ++ (row lo count f ++ row (lo + count) rest f)
      parts =
          row-append 0 lo (count + rest) f
          ∙ ap (λ k. row 0 lo f ++ row k (count + rest) f) (let e : 0 + lo ≡ lo = omega arith in e)
          ∙ ap (λ x. row 0 lo f ++ x) (row-append lo count rest f)

      -- A range of whole blocks of a row.
      pub take-drop-row :
          take (count * b) (drop (lo * b) (row 0 (lo + (count + rest)) f)) ≡ row lo count f
      take-drop-row =
          ap (λ x. take (count * b) (drop (lo * b) x)) parts
          ∙ ap (take (count * b))
              (drop-append (lo * b) (row 0 lo f) (row lo count f ++ row (lo + count) rest f) before)
          ∙ take-append (count * b) (row lo count f) (row (lo + count) rest f) middle

      -- A row with other blocks in a range: the row overwritten.
      pub overwrite-row :
          (g : ℕ → List A)
          → ((j : ℕ) → j < lo → g j ≡ f j)
          → ((j : ℕ) → lo + count ≤ j → j < lo + (count + rest) → g j ≡ f j)
          → length (row lo count g) ≡ count * b
          → row 0 (lo + (count + rest)) g
            ≡ take (lo * b) (row 0 (lo + (count + rest)) f)
              ++ (row lo count g
                  ++ drop (lo * b + length (row lo count g)) (row 0 (lo + (count + rest)) f))
      overwrite-row g low high l =
          let whole = row 0 (lo + (count + rest)) f in
          let tail = row (lo + count) rest f in
          let first : take (lo * b) whole ≡ row 0 lo f =
            ap (take (lo * b)) parts
            ∙ take-append (lo * b) (row 0 lo f) (row lo count f ++ tail) before in
          let last : drop (lo * b + length (row lo count g)) whole ≡ tail =
            ap (drop (lo * b + length (row lo count g)))
              (parts ∙ sym (append_assoc (row 0 lo f) (row lo count f) tail))
            ∙ drop-append (lo * b + length (row lo count g)) (row 0 lo f ++ row lo count f) tail
                (omega (arith, length-append (row 0 lo f) (row lo count f), before, middle, l)) in
          row-append 0 lo (count + rest) g
          ∙ ap (λ k. row 0 lo g ++ row k (count + rest) g) (let e : 0 + lo ≡ lo = omega arith in e)
          ∙ ap (λ x. row 0 lo g ++ x) (row-append lo count rest g)
          ∙ ap (λ x. x ++ (row lo count g ++ row (lo + count) rest g))
              (row_cong 0 lo g f (λ j _ hi. low j (omega arith)) ∙ sym first)
          ∙ ap (λ x. take (lo * b) whole ++ (row lo count g ++ x))
              (row_cong (lo + count) rest g f (λ j at hi. high j at (omega arith)) ∙ sym last)
