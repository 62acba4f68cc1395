-- ===== src/Tree/Index.antt =====
-- `extract_index`: the base-128 digits of a sector number, the most significant at the root.
use vo_e.Common.{
  ℕ, zero, suc, ◌+◌, ◌-◌, ◌*◌, ◌/◌, ◌%◌, ◌^◌, ◌<◌, ◌≡◌, refl, sym, ap, ◌∙◌, arith, Bool, true, ◌&&◌,
  ◌==◌, ==_iff, bit_and_mask, mod-mul,
}
use native.Mathlib.Nat.{pow-suc, pow-succ', one-le-pow, mod-eq_of_lt}
use native.Mathlib.Decide.{ℕ_discrete}
use native.Mathlib.Numerals.{towards_suc}
use vo_e.Tree.{extract_index}

-- The digit that a node chooses by, `r` levels above the leaves.
unfoldable pub digit : ℕ → ℕ → ℕ
digit r lba = lba / 128 ^ r % 128

pub digit-lt : (r lba : ℕ) → digit r lba < 128
unfolding digit
digit-lt r lba = omega arith

two_pow-add_seven : (k : ℕ) → 2 ^ (k + 7) ≡ 128 * 2 ^ k
two_pow-add_seven k = simp towards_suc (omega arith)

two_pow_seven : (r : ℕ) → 2 ^ (r * 7) ≡ 128 ^ r
two_pow_seven zero = refl
two_pow_seven (suc r) =
    ap (λ k. 2 ^ k) (let e : suc r * 7 ≡ r * 7 + 7 = omega arith in e)
    ∙ two_pow-add_seven (r * 7)
    ∙ ap (λ k. 128 * k) (two_pow_seven r)
    ∙ sym (pow-succ' 128 r)

pub extract_index-eq-digit :
    (lba level depth r : ℕ) → level + suc r ≡ depth → extract_index lba level depth ≡ digit r lba
unfolding extract_index digit
extract_index-eq-digit lba level depth r e =
    let left : depth - 1 - level ≡ r = omega arith in
    rw left (bit_and_mask 7 (lba / 2 ^ (r * 7)) ∙ ap (λ t. lba / t % 128) (two_pow_seven r))

-- Two sectors that take the same way through the last `r` levels.
unfoldable pub same_path : ℕ → ℕ → ℕ → Bool
same_path zero a b = true
same_path (suc r) a b = digit r a == digit r b && same_path r a b

same_path-mod : (r a b : ℕ) → same_path r a b ≡ true → a % 128 ^ r ≡ b % 128 ^ r
unfolding same_path digit
same_path-mod zero a b h = omega arith
same_path-mod (suc r) a b h =
    let split = λ (x : ℕ).
      ap (λ (t : ℕ). x % t) (pow-suc 128 r)
      ∙ mod-mul x (128 ^ r) 128 (one-le-pow r 128 (omega arith)) (omega arith) in
    ground (arith, split a, split b, same_path-mod r a b)

-- Within the room of the tree only equal sectors share the whole way.
pub same_path→eq : (r a b : ℕ) → a < 128 ^ r → b < 128 ^ r → same_path r a b ≡ true → a ≡ b
same_path→eq r a b ha hb h = omega (arith, same_path-mod r a b h, mod-eq_of_lt ha, mod-eq_of_lt hb)

pub same_path_self : (r a : ℕ) → same_path r a a ≡ true
unfolding same_path
same_path_self zero a = refl
same_path_self (suc r) a = ground (arith, same_path_self r a)

-- Within the room of the tree to share the way is to be equal.
pub same_path-eq-== : (r a b : ℕ) → a < 128 ^ r → b < 128 ^ r → same_path r a b ≡ (a == b)
same_path-eq-== r a b ha hb = elim (ℕ_discrete a b) [
  | yes same ↦ rw same (same_path_self r b ∙ sym ((==_iff b b).1 refl))
  | no differ ↦ ground (arith, differ, same_path→eq r a b ha hb)
]
