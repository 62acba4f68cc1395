-- ===== src/Common/Bits.antt =====
-- `|` of disjoint fields and `&` with a low mask as arithmetic, at every width.
use Prim.Native.Nat.{
  ℕ, zero, suc, ◌+◌, ◌-◌, ◌*◌, ◌/◌, ◌%◌, ◌^◌, ◌≤◌, ◌<◌, min, max, bit_and, bit_or, digits,
  bit_and-bitwise, bit_or-bitwise,
}
use mathlib.Core.Path.{◌≡◌, refl, ap, ◌∙◌}
use native.Mathlib.Omega.{arith}
use native.Mathlib.Nat.{
  pow-suc, pow-succ', one-le-pow, mod-lt, mod-eq_of_lt, add-mul-mod_self_left, div-add-mod,
  mul-le-mul_left,
}

-- `x >> k`, and `x << k` before the cut to the word's width
abbrev pub shr : ℕ → ℕ → ℕ
shr x k = x / 2 ^ k

abbrev pub shl : ℕ → ℕ → ℕ
shl x k = x * 2 ^ k

-- The recursion on binary digits that the native operations stand for, once its fuel is enough.
module _ (z : ℕ → ℕ) (op : ℕ → ℕ → ℕ) where
  enough_digits : (n m a b : ℕ) → a ≤ n → a ≤ m → digits z op n a b ≡ digits z op m a b
  enough_digits zero zero zero b h k = refl
  enough_digits zero zero (suc a) b h k = absurd (omega arith)
  enough_digits zero (suc m) zero b h k = refl
  enough_digits zero (suc m) (suc a) b h k = absurd (omega arith)
  enough_digits (suc n) zero zero b h k = refl
  enough_digits (suc n) zero (suc a) b h k = absurd (omega arith)
  enough_digits (suc n) (suc m) zero b h k = refl
  enough_digits (suc n) (suc m) (suc a) b h k =
      ap (λ t. t * 2 + op (suc a % 2) (b % 2))
        (enough_digits n m (suc a / 2) (b / 2) (omega arith) (omega arith))

or_low_digit : (x y : ℕ) → bit_or x y ≡ max (x % 2) (y % 2) + bit_or (x / 2) (y / 2) * 2
or_low_digit zero y = omega (arith, bit_or-bitwise 0 (y / 2), bit_or-bitwise 0 y)
or_low_digit (suc x) y =
    let half = suc x / 2 in
    omega (
      arith,
      enough_digits (λ t. t) max x half half (y / 2) (omega arith) (omega arith),
      bit_or-bitwise half (y / 2),
      bit_or-bitwise (suc x) y,
    )

and_low_digit : (x y : ℕ) → bit_and x y ≡ min (x % 2) (y % 2) + bit_and (x / 2) (y / 2) * 2
and_low_digit zero y = omega (arith, bit_and-bitwise 0 (y / 2), bit_and-bitwise 0 y)
and_low_digit (suc x) y =
    let half = suc x / 2 in
    omega (
      arith,
      enough_digits (λ t. 0) min x half half (y / 2) (omega arith) (omega arith),
      bit_and-bitwise half (y / 2),
      bit_and-bitwise (suc x) y,
    )

zero-bit_or : (b : ℕ) → bit_or 0 b ≡ b
zero-bit_or b = bit_or-bitwise 0 b

and_zero_below : (n a : ℕ) → a ≤ n → bit_and a 0 ≡ 0
and_zero_below zero zero h = refl
and_zero_below zero (suc a) h = absurd (omega arith)
and_zero_below (suc n) zero h = refl
and_zero_below (suc n) (suc a) h =
    omega (arith, and_low_digit (suc a) 0, and_zero_below n (suc a / 2) (omega arith))

double_shl : (b k : ℕ) → b * 2 ^ suc k ≡ b * 2 ^ k * 2
double_shl b k = omega (arith, ap (λ (t : ℕ). b * t) (pow-suc 2 k))

-- `a | (b << k)` is a sum when `a` has `k` bits.
pub bit_or-shl : (k a b : ℕ) → a < 2 ^ k → bit_or a (shl b k) ≡ a + b * 2 ^ k
bit_or-shl zero zero b h = omega (arith, zero-bit_or (b * 1))
bit_or-shl zero (suc a) b h = absurd (omega arith)
bit_or-shl (suc k) a b h = omega (
  arith,
  pow-suc 2 k,
  double_shl b k,
  or_low_digit a (b * 2 ^ suc k),
  bit_or-shl k (a / 2) b (omega (arith, pow-suc 2 k)),
  ap (λ (t : ℕ). bit_or (a / 2) t) (half_shl b k),
)
  where
    half_shl : (b k : ℕ) → b * 2 ^ suc k / 2 ≡ b * 2 ^ k
    half_shl b k = omega (arith, double_shl b k)

module _ (x m n : ℕ) (pm : 0 < m) (pn : 0 < n) where
  mixed_radix_lt : x % m + m * (x / m % n) < m * n
  mixed_radix_lt =
      let low : x % m < m = mod-lt x pm in
      let high : m * (x / m % n + 1) ≤ m * n =
        mul-le-mul_left m (omega (arith, mod-lt (x / m) pn)) in
      omega arith

  -- The last two digits of `x` in a mixed radix.
  pub mod-mul : x % (m * n) ≡ x % m + m * (x / m % n)
  mod-mul =
      let whole : x ≡ (x % m + m * (x / m % n)) + m * n * (x / m / n) =
        omega (arith, div-add-mod x m, ap (λ (t : ℕ). m * t) (div-add-mod (x / m) n)) in
      ap (λ t. t % (m * n)) whole
      ∙ add-mul-mod_self_left (x % m + m * (x / m % n)) (m * n) (x / m / n)
      ∙ mod-eq_of_lt mixed_radix_lt

-- A mask of `k` ones keeps the remainder by `2 ^ k`.
pub bit_and_mask : (k a : ℕ) → bit_and a (2 ^ k - 1) ≡ a % 2 ^ k
bit_and_mask zero a = omega (arith, and_zero_below a a (omega arith))
bit_and_mask (suc k) a =
    let pos : 1 ≤ 2 ^ k = one-le-pow k 2 (omega arith) in
    let half : (2 ^ suc k - 1) / 2 ≡ 2 ^ k - 1 = omega (arith, pow-suc 2 k) in
    omega (
      arith,
      pow-suc 2 k,
      and_low_digit a (2 ^ suc k - 1),
      ap (λ (t : ℕ). bit_and (a / 2) t) half,
      bit_and_mask k (a / 2),
      ap (λ (t : ℕ). a % t) (pow-succ' 2 k),
      mod-mul a 2 (2 ^ k) (omega arith) pos,
    )
