-- ===== src/Chardev/Interface.antt =====
-- What the character device takes from the kernel's headers (linux/circ_buf.h, linux/log2.h), as
-- an interface with the documented behaviour that the device relies on.
use xpu_kllm.Prelude.{ℕ, ◌+◌, ◌-◌, ◌%◌, ◌^◌, ◌≤◌, ◌<◌, ◌≡◌}

pub record Kernel : Type 0 where
  -- `CIRC_CNT(head, tail, size)` and `CIRC_SPACE(head, tail, size)`.
  pub circ_cnt : ℕ → ℕ → ℕ → ℕ
  pub circ_space : ℕ → ℕ → ℕ → ℕ
  pub rounddown_pow_of_two : ℕ → ℕ
  -- The count in a buffer whose size is a power of two.
  pub circ_cnt_lem :
      (bits head tail : ℕ)
      → head < 2 ^ bits
      → tail < 2 ^ bits
      → circ_cnt head tail (2 ^ bits) ≡ (head + 2 ^ bits - tail) % 2 ^ bits
  -- The space leaves one entry free.
  pub circ_space_lem :
      (bits head tail : ℕ)
      → head < 2 ^ bits
      → tail < 2 ^ bits
      → circ_space head tail (2 ^ bits) + circ_cnt head tail (2 ^ bits) + 1 ≡ 2 ^ bits
  pub rounddown_lem :
      (bits n : ℕ) → 2 ^ bits ≤ n → n < 2 ^ (bits + 1) → rounddown_pow_of_two n ≡ 2 ^ bits
