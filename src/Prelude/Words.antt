-- ===== src/Prelude/Words.antt =====
-- Unsigned machine words as native numbers, and the mask of a power-of-two ring.
use Prim.Native.Nat.{
  ℕ, zero, suc, ◌+◌, ◌-◌, ◌*◌, ◌/◌, ◌%◌, ◌^◌, ◌≤◌, ◌<◌, min, bit_and, digits, bit_and-bitwise,
}
use mathlib.Core.Path.{◌≡◌, refl, sym, ◌∙◌, ap}
use native.Mathlib.Nat.{
  le_refl, pow-zero, pow-suc, add-zero, one-le-pow, mod-mod_of_dvd, add-mul-mod_self_left,
  mod-eq_of_lt, mod-lt, div-add-mod, dvd-mul_right,
}
use native.Mathlib.Omega.{arith}

abbrev pub u32 : ℕ → ℕ
u32 x = x % 2 ^ 32

abbrev pub u64 : ℕ → ℕ
u64 x = x % 2 ^ 64

-- `a + b` and `a - b` in uint32_t.
abbrev pub add32 : ℕ → ℕ → ℕ
add32 a b = (a + b) % 2 ^ 32

abbrev pub sub32 : ℕ → ℕ → ℕ
sub32 a b = (a + 2 ^ 32 - b) % 2 ^ 32

-- The same in uint64_t; the operands are below 2 ^ 64.
abbrev pub add64 : ℕ → ℕ → ℕ
add64 a b = (a + b) % 2 ^ 64

abbrev pub sub64 : ℕ → ℕ → ℕ
sub64 a b = (a + 2 ^ 64 - b) % 2 ^ 64

abbrev pub mul64 : ℕ → ℕ → ℕ
mul64 a b = (a * b) % 2 ^ 64

-- The value that the digit recursion of `bit_and` gives does not depend on its fuel.
digit_fuel : (n m a b : ℕ) → a ≤ n → a ≤ m → digits (λ y. 0) min n a b ≡ digits (λ y. 0) min m a b
digit_fuel zero zero a b p q = refl
digit_fuel zero (suc m) zero b p q = refl
digit_fuel zero (suc m) (suc a) b p q = absurd (omega arith)
digit_fuel (suc n) zero zero b p q = refl
digit_fuel (suc n) zero (suc a) b p q = absurd (omega arith)
digit_fuel (suc n) (suc m) zero b p q = refl
digit_fuel (suc n) (suc m) (suc a) b p q =
    omega (arith, digit_fuel n m (suc a / 2) (b / 2) (omega arith) (omega arith))

-- One binary digit of `&`.
pub bit_and_digit : (a b : ℕ) → bit_and a b ≡ bit_and (a / 2) (b / 2) * 2 + min (a % 2) (b % 2)
bit_and_digit zero b = simp bit_and-bitwise (omega arith)
bit_and_digit (suc a) b = omega (
  arith,
  bit_and-bitwise (suc a) b,
  bit_and-bitwise (suc a / 2) (b / 2),
  digit_fuel a (suc a / 2) (suc a / 2) (b / 2) (omega arith) (le_refl _),
)

zero_mask_fuel : (n a : ℕ) → a ≤ n → bit_and a 0 ≡ 0
zero_mask_fuel n zero h = refl
zero_mask_fuel zero (suc a) h = absurd (omega arith)
zero_mask_fuel (suc n) (suc a) h =
    omega (arith, bit_and_digit (suc a) 0, zero_mask_fuel n (suc a / 2) (omega arith))

split_remainder : (a m : ℕ) → 0 < m → (a / 2 % m) * 2 + a % 2 ≡ a % (2 * m)
split_remainder a m h =
    sym (mod-eq_of_lt {n = low} {m = 2 * m} (omega (arith, mod-lt (a / 2) h)))
    ∙ sym (add-mul-mod_self_left low (2 * m) (a / 2 / m))
    ∙ ap (λ (t : ℕ). t % (2 * m)) whole
  where
    low : ℕ
    low = (a / 2 % m) * 2 + a % 2

    whole : low + 2 * m * (a / 2 / m) ≡ a
    whole = omega (arith, div-add-mod (a / 2) m)

pub two-pow_pos : (k : ℕ) → 0 < 2 ^ k
two-pow_pos k = one-le-pow k 2 (omega arith)

-- `a & (2 ^ k - 1)` is the remainder by `2 ^ k`.
pub bit_and_mask : (k a : ℕ) → bit_and a (2 ^ k - 1) ≡ a % 2 ^ k
bit_and_mask zero a = omega (arith, zero_mask_fuel a a (le_refl a))
bit_and_mask (suc k) a = ground (
  arith,
  bit_and_digit a (2 ^ suc k - 1),
  pow-suc 2 k,
  two-pow_pos k,
  bit_and_mask k (a / 2),
  split_remainder a (2 ^ k),
)

exponent_suc : (k j : ℕ) → 2 ^ (k + suc j) ≡ 2 ^ suc (k + j)
exponent_suc k j = let e : k + suc j ≡ suc (k + j) = omega arith in ap (λ (t : ℕ). 2 ^ t) e

two-pow_add : (k j : ℕ) → 2 ^ (k + j) ≡ 2 ^ k * 2 ^ j
two-pow_add k zero = rw (add-zero, pow-zero) (omega arith)
two-pow_add k (suc j) = omega (
  arith,
  exponent_suc k j,
  pow-suc 2 (k + j),
  ap (λ (t : ℕ). 2 ^ k * t) (pow-suc 2 j),
  two-pow_add k j,
)

-- `2 ^ k` divides `2 ^ 32`.
word_multiple : (k : ℕ) → k ≤ 32 → 2 ^ 32 ≡ 2 ^ k * 2 ^ (32 - k)
word_multiple k h =
    let e : 32 ≡ k + (32 - k) = omega arith in ap (λ (t : ℕ). 2 ^ t) e ∙ two-pow_add k (32 - k)

pub two-pow-le : (k : ℕ) → k ≤ 32 → 2 ^ k ≤ 2 ^ 32
two-pow-le k h = grind (arith, word_multiple k h, two-pow_pos (32 - k))

pub two-pow_double_le : (k : ℕ) → k < 32 → 2 ^ k + 2 ^ k ≤ 2 ^ 32
two-pow_double_le k h =
    omega (arith, two-pow-le (k + 1) (omega arith), two-pow_add k 1, two-pow_pos k)

-- Reduction to 32 bits is invisible under a mask of at most 32 ones.
pub mask32 : (k a : ℕ) → k ≤ 32 → bit_and (a % 2 ^ 32) (2 ^ k - 1) ≡ a % 2 ^ k
mask32 k a h =
    bit_and_mask k (a % 2 ^ 32)
    ∙ mod-mod_of_dvd (2 ^ k) a (rw (word_multiple k h) (dvd-mul_right (2 ^ k) (2 ^ (32 - k))))

-- The wrap of an unsigned difference adds a multiple of `2 ^ k`.
pub lift32 : (k y : ℕ) → k ≤ 32 → (y + (2 ^ 32 - 2 ^ k)) % 2 ^ k ≡ y % 2 ^ k
lift32 k y h = ap (λ (t : ℕ). t % 2 ^ k) whole ∙ add-mul-mod_self_left y (2 ^ k) (2 ^ (32 - k) - 1)
  where
    whole : y + (2 ^ 32 - 2 ^ k) ≡ y + 2 ^ k * (2 ^ (32 - k) - 1)
    whole =
        let e : 2 ^ (32 - k) ≡ (2 ^ (32 - k) - 1) + 1 = omega (arith, two-pow_pos (32 - k)) in
        omega (arith, word_multiple k h, ap (λ (t : ℕ). 2 ^ k * t) e)
