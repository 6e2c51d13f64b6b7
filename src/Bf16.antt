-- ===== src/Bf16.antt =====
-- The bfloat16 conversions of userspace/compute/ace_attention.c, repeated in
-- userspace/compute/infer_cpu.c and in mx_quant_to_bf16 of userspace/compute/mx_dequant.h, on the
-- bits of the numbers.
use xpu_kllm.Prelude.{ℕ, ◌+◌, ◌*◌, ◌/◌, ◌%◌, ◌^◌, ◌≤◌, ◌<◌, ◌≡◌, ◌≢◌, ◌⊎◌, ◌↔◌, arith}
use xpu_kllm.Prelude.Words.{u32, add32}

-- `(uint32_t)val << 16`.
unfoldable pub widen : ℕ → ℕ
widen val = u32 (val * 2 ^ 16)

-- `bits += 0x7FFF + ((bits >> 16) & 1)`, and then `(bf16_t)(bits >> 16)`.
unfoldable pub narrow : ℕ → ℕ
narrow bits = (add32 bits (0x7FFF + bits / 2 ^ 16 % 2) / 2 ^ 16) % 2 ^ 16

-- Infinity is the largest magnitude that is a number.
abbrev pub IsNan32 : ℕ → Type 0
IsNan32 bits = 0x7F800000 < bits % 2 ^ 31

abbrev pub IsNan16 : ℕ → Type 0
IsNan16 bits = 0x7F80 < bits % 2 ^ 15

-- A bfloat16 comes back from its float unchanged.
pub narrow-widen : (val : ℕ) → val < 2 ^ 16 → narrow (widen val) ≡ val
unfolding narrow widen
narrow-widen val h = omega arith

-- The conversion rounds the bits of a float below 0xFFFF8000 to the nearest multiple of 2 ^ 16, and
-- halfway between two of them to the even one.
pub narrow_nearest :
    (bits : ℕ)
    → bits < 0xFFFF8000
    → (narrow bits * 2 ^ 16 ≤ bits + 2 ^ 15)
      × (bits ≤ narrow bits * 2 ^ 16 + 2 ^ 15)
      × ((bits % 2 ^ 16 ≢ 2 ^ 15) ⊎ (narrow bits % 2 ≡ 0))
unfolding narrow
narrow_nearest bits h = (omega arith, omega arith, ground arith)

-- What becomes of a float that is not a number: it stays one exactly when its magnitude, the bits
-- without the sign, lies strictly between 0x7F808000 and 0x7FFF8000; it becomes an infinity exactly
-- when the magnitude is at most the first bound, and a zero when it is at least the second.
pub narrow-IsNan32 :
    (bits : ℕ)
    → bits < 2 ^ 32
    → IsNan32 bits
    → (IsNan16 (narrow bits) ↔ ((0x7F808000 < bits % 2 ^ 31) × (bits % 2 ^ 31 < 0x7FFF8000)))
      × ((narrow bits % 2 ^ 15 ≡ 0x7F80) ↔ (bits % 2 ^ 31 ≤ 0x7F808000))
      × ((narrow bits % 2 ^ 15 ≡ 0) ↔ (0x7FFF8000 ≤ bits % 2 ^ 31))
unfolding narrow
narrow-IsNan32 bits h nan = (
  ((λ n. (omega (arith, n), omega (arith, n))), (λ n. omega (arith, n))),
  ((λ n. omega (arith, n)), (λ n. omega (arith, n))),
  ((λ n. omega (arith, n)), (λ n. omega (arith, n))),
)
