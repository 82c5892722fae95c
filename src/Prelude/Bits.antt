-- ===== src/Prelude/Bits.antt =====
-- A mask of low ones takes a remainder: `x & (2^k - 1)` is `x % 2^k`, for every width.
use Prim.Native.Nat.{bit_and, bit_or, digits, bit_and-bitwise, bit_or-bitwise}
use native.Mathlib.Nat.{
  pow-suc, mod-one, zero-mod, mod-eq_of_lt, mod-lt, div-add-mod, mul-add-mod_self_left, mul_assoc,
}
use whale.Prelude.{
  ℕ, zero, suc, ◌+◌, ◌-◌, ◌*◌, ◌/◌, ◌%◌, ◌^◌, ◌≤◌, ◌<◌, min, max, ◌≡◌, ap, sym, subst, ◌∙◌, arith,
}

pub pow_pos : (k : ℕ) → 0 < 2 ^ k
pow_pos zero = omega arith
pow_pos (suc k) = omega (arith, pow-suc 2 k, pow_pos k)

-- The lowest digit of a remainder by an even number.
mod_double : (a m : ℕ) → 0 < m → a % (m * 2) ≡ a / 2 % m * 2 + a % 2
mod_double a m h =
    let split : a ≡ m * 2 * (a / 2 / m) + (a / 2 % m * 2 + a % 2) =
      omega (arith, div-add-mod (a / 2) m) in
    let small : a / 2 % m * 2 + a % 2 < m * 2 = omega (arith, mod-lt (a / 2) h) in
    subst (λ x. x % (m * 2) ≡ a / 2 % m * 2 + a % 2) (sym split)
      (mul-add-mod_self_left (m * 2) (a / 2 / m) _ ∙ mod-eq_of_lt small)

mask_digits : (k n a : ℕ) → a ≤ n → digits (λ b. zero) min n a (2 ^ k - 1) ≡ a % 2 ^ k
mask_digits k zero zero h = sym (zero-mod _)
mask_digits k zero (suc a) h = absurd (omega arith)
mask_digits k (suc n) zero h = sym (zero-mod _)
mask_digits zero (suc n) (suc a) h =
    omega (arith, mask_digits zero n (suc a / 2) (omega arith), mod-one (suc a / 2))
mask_digits (suc k) (suc n) (suc a) h =
    let half : (2 ^ suc k - 1) / 2 ≡ 2 ^ k - 1 = omega (arith, pow-suc 2 k, pow_pos k) in
    let odd : (2 ^ suc k - 1) % 2 ≡ 1 = omega (arith, pow-suc 2 k, pow_pos k) in
    rw (half, odd, pow-suc 2 k, mod_double (suc a) (2 ^ k) (pow_pos k))
      (omega (arith, mask_digits k n (suc a / 2) (omega arith)))

-- `a & (2^k - 1)` is the remainder of `a` by `2^k`.
pub bit_and-mask : (k a : ℕ) → bit_and a (2 ^ k - 1) ≡ a % 2 ^ k
bit_and-mask k a = bit_and-bitwise a (2 ^ k - 1) ∙ mask_digits k a a (omega arith)

-- The lowest byte of a remainder by a multiple of 256.
pub mod_byte : (a m : ℕ) → 0 < m → a % (m * 256) ≡ a % 256 + 256 * (a / 256 % m)
mod_byte a m h =
    let split : a ≡ m * 256 * (a / 256 / m) + (a % 256 + 256 * (a / 256 % m)) =
      omega (arith, div-add-mod (a / 256) m) in
    let small : a % 256 + 256 * (a / 256 % m) < m * 256 = omega (arith, mod-lt (a / 256) h) in
    subst (λ x. x % (m * 256) ≡ a % 256 + 256 * (a / 256 % m)) (sym split)
      (mul-add-mod_self_left (m * 256) (a / 256 / m) _ ∙ mod-eq_of_lt small)

pow_four : (k : ℕ) → 2 ^ suc (suc (suc (suc k))) ≡ 2 ^ k * 16
pow_four k =
    omega (
      arith,
      pow-suc 2 k,
      pow-suc 2 (suc k),
      pow-suc 2 (suc (suc k)),
      pow-suc 2 (suc (suc (suc k))),
    )

pub pow_byte : (w : ℕ) → 2 ^ (8 * suc w) ≡ 2 ^ (8 * w) * 256
pow_byte w =
    let k = 8 * w in
    let four = suc (suc (suc (suc k))) in
    let eight : suc (suc (suc (suc four))) ≡ 8 * suc w = omega arith in
    subst (λ n. 2 ^ n ≡ 2 ^ k * 256) eight (omega (arith, pow_four k, pow_four four))

or_digits : (k n a b : ℕ) → a ≤ n → a < 2 ^ k → digits (λ x. x) max n a (b * 2 ^ k) ≡ a + b * 2 ^ k
or_digits k zero zero b h s = omega arith
or_digits k zero (suc a) b h s = absurd (omega arith)
or_digits k (suc n) zero b h s = omega arith
or_digits zero (suc n) (suc a) b h s = absurd (omega arith)
or_digits (suc k) (suc n) (suc a) b h s =
    let twice : b * 2 ^ suc k ≡ b * 2 ^ k * 2 =
      ap (λ x. b * x) (pow-suc 2 k) ∙ sym (mul_assoc b (2 ^ k) 2) in
    let half : b * 2 ^ suc k / 2 ≡ b * 2 ^ k = omega (arith, twice) in
    let even : b * 2 ^ suc k % 2 ≡ 0 = omega (arith, twice) in
    rw (half, even)
      (omega
        (arith, twice, or_digits k n (suc a / 2) b (omega arith) (omega (arith, pow-suc 2 k, s))))

-- Numbers that share no digit: `a | b << k` is a sum where `a` has `k` digits.
pub bit_or-shifted : (k a b : ℕ) → a < 2 ^ k → bit_or a (b * 2 ^ k) ≡ a + b * 2 ^ k
bit_or-shifted k a b s = bit_or-bitwise a (b * 2 ^ k) ∙ or_digits k a a b (omega arith) s
