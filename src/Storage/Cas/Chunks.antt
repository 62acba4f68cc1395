-- ===== src/Storage/Cas/Chunks.antt =====
-- The chunks of `data.chunks(512)`.
use vo_e.Common.{
  ℕ, zero, suc, ◌*◌, ◌≤◌, ◌≡◌, refl, ap, ◌∙◌, arith, Bytes, length, take, drop, All, [], ◌∷◌, ◌++◌,
  concat, length-take, length-drop, take-append-drop,
}
use vo_e.Storage.Cas.{chunks}
use vo_e.Storage.Cas.Rounds.{IsBlock}

-- With fuel for each byte, the chunks of any bytes laid end to end are the bytes.
pub concat-chunks : (fuel : ℕ) (d : Bytes) → length d ≤ fuel → concat (chunks fuel d) ≡ d
unfolding chunks
concat-chunks zero [] h = refl
concat-chunks zero (x ∷ xs) h = absurd (omega (arith, h))
concat-chunks (suc fuel) [] h = refl
concat-chunks (suc fuel) (x ∷ xs) h =
    let d = x ∷ xs in
    ap (λ rest. take 512 d ++ rest)
      (concat-chunks fuel (drop 512 d) (omega (arith, h, length-drop 512 d)))
    ∙ take-append-drop 512 d

-- The chunks of `count` sectors are `count` blocks.
pub chunks-IsBlock :
    (fuel count : ℕ) (d : Bytes)
    → length d ≤ fuel
    → length d ≡ count * 512
    → All IsBlock (chunks fuel d) × (length (chunks fuel d) ≡ count)
unfolding chunks
chunks-IsBlock zero count [] h l = (tt, omega (arith, l))
chunks-IsBlock zero count (x ∷ xs) h l = absurd (omega (arith, h))
chunks-IsBlock (suc fuel) count [] h l = (tt, omega (arith, l))
chunks-IsBlock (suc fuel) zero (x ∷ xs) h l = absurd (omega (arith, l))
chunks-IsBlock (suc fuel) (suc count) (x ∷ xs) h l =
    let d = x ∷ xs in
    let (blocks, many) =
      chunks-IsBlock fuel count (drop 512 d) (omega (arith, h, length-drop 512 d))
        (omega (arith, l, length-drop 512 d)) in
    ((omega (arith, length-take 512 d, l), blocks), ap suc many)
