-- ===== src/Tree/Depth.antt =====
-- `calculate_depth`: it ends, and gives the least depth whose tree has room.
use vo_e.Common.{
  ℕ, zero, suc, ◌+◌, ◌-◌, ◌*◌, ◌%◌, ◌^◌, ◌≤◌, ◌<◌, ◌≡◌, ◌≢◌, refl, false, ◌==◌, arith, ltb_of_le,
  lt→ltb, subst,
}
use native.Mathlib.Decide.{dec_lt}
use native.Mathlib.Nat.{pow-suc, pow-le-pow_right}
use vo_e.Tree.{depth_loop, calculate_depth}

-- A depth is right for a number of sectors when its tree has room, and one less would not do.
pub record FitsDepth (total depth : ℕ) : Type 0 where
  pub room : total ≤ 128 ^ depth
  pub at_least_one : 1 ≤ depth
  pub at_most_nine : depth ≤ 9
  pub least : 1 < depth → 128 ^ (depth - 1) < total

below_nine : (d total : ℕ) → total ≤ 128 ^ 9 → 128 ^ d < total → d < 9
below_nine d total h k = elim (dec_lt d 9) [
  | yes small ↦ small
  | no big ↦
      absurd (omega (arith, pow-le-pow_right {n = 128} (omega arith) {i = 9} {j = d} (omega arith)))
]

pow-succ-le : (d : ℕ) → d < 9 → 128 ^ suc d ≤ 128 ^ 9
pow-succ-le d h = pow-le-pow_right {n = 128} (omega arith) {i = suc d} {j = 9} (omega arith)

-- One round that goes on, without the cuts to `u8` and `u64`.
depth_loop_step :
    (fuel d total : ℕ)
    → total ≤ 128 ^ 9
    → 128 ^ d < total
    → depth_loop (suc fuel) d (128 ^ d) total ≡ depth_loop fuel (suc d) (128 ^ suc d) total
unfolding depth_loop
depth_loop_step fuel d total h more =
    let small : d < 9 = below_nine d total h more in
    let capacity : 128 ^ d * 128 % 2 ^ 64 ≡ 128 ^ suc d =
      omega (arith, pow-suc 128 d, pow-succ-le d small) in
    let depth : (d + 1) % 2 ^ 8 ≡ suc d = omega arith in rw (lt→ltb _ _ more, capacity, depth)

depth_loop_stop : (fuel d total : ℕ) → total ≤ 128 ^ d → depth_loop (suc fuel) d (128 ^ d) total ≡ d
unfolding depth_loop
depth_loop_stop fuel d total h = rw (ltb_of_le _ _ h)

depth_loop-FitsDepth :
    (fuel d total : ℕ)
    → total ≤ 128 ^ 9
    → 1 ≤ d
    → d ≤ 9
    → 10 ≤ fuel + d
    → (1 < d → 128 ^ (d - 1) < total)
    → FitsDepth total (depth_loop fuel d (128 ^ d) total)
depth_loop-FitsDepth zero d total h lo hi f prev = absurd (omega arith)
depth_loop-FitsDepth (suc fuel) d total h lo hi f prev = elim (dec_lt (128 ^ d) total) [
  | yes more ↦ rw (depth_loop_step fuel d total h more) (
      depth_loop-FitsDepth fuel (suc d) total h (omega arith) (below_nine d total h more)
        (omega arith)
        (λ _. subst (λ k. 128 ^ k < total) (let e : d ≡ suc d - 1 = omega arith in e) more))
  | no enough ↦
      rw (depth_loop_stop fuel d total (omega arith))
        (record { room = omega arith; at_least_one = lo; at_most_nine = hi; least = prev })
]

-- For 1 to 2 ^ 63 sectors the loop ends by its test, and the depth that it leaves is the least
-- one with room, between 1 and 9.
pub calculate_depth-FitsDepth :
    (total : ℕ) → total ≢ 0 → total ≤ 2 ^ 63 → FitsDepth total (calculate_depth total)
unfolding calculate_depth
calculate_depth-FitsDepth zero some_sectors h = absurd (some_sectors refl)
calculate_depth-FitsDepth (suc n) some_sectors h =
    let positive : (suc n == 0) ≡ false = ground arith in
    rw positive (
      depth_loop-FitsDepth 16 1 (suc n) h (omega arith) (omega arith) (omega arith)
        (λ p. absurd (omega arith)))
