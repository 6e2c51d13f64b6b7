-- ===== src/Microscaling.antt =====
-- userspace/compute/mx_dequant.h: blocks of 8 bfloat16 that share a scale of 8 bits. Floats are a
-- type with the operations that the code uses; an array is a list.
pub mod Fused
use xpu_kllm.Prelude.{
  ℕ, zero, suc, ◌+◌, ◌-◌, ◌*◌, ◌/◌, ◌%◌, ◌^◌, ◌≤◌, ◌<◌, ◌≡◌, refl, sym, ap, ap₂, ◌∙◌, arith, Bool,
  List, [], ◌∷◌, get_or, set, length, ltb, leb, ◌==◌, ◌&&◌, if◌then◌else◌,
}
use xpu_kllm.Bf16.{narrow, widen}
use xpu_kllm.Attention.{Floats, bf16_to_f32}

abbrev pub mx_block_size : ℕ
mx_block_size = 8

module _ {F : Type 0} (fl : Floats F) (of_nat : ℕ → F) (neg : F → F) where
  -- The conversion of a scale. The first value that the code gives `fexp` for a normal number is
  -- overwritten unread, and so left out.
  unfoldable pub fp8_e4m3_to_f32 : ℕ → F
  fp8_e4m3_to_f32 val =
      let sign = val / 2 ^ 7 % 2 in
      let exp = val / 2 ^ 3 % 2 ^ 4 in
      let mant = val % 2 ^ 3 in
      let one = of_nat 1 in
      let fexp =
        if exp == 0
        then fl.div one (of_nat (2 ^ 6))
        else if leb 7 exp
        then of_nat (2 ^ (exp - 7))
        else fl.div one (of_nat (2 ^ (7 - exp))) in
      let fraction = fl.div (of_nat mant) (of_nat 8) in
      let fmant = if exp == 0 then fraction else fl.add one fraction in
      let result = fl.mul fexp fmant in
      if (exp == 0) && (mant == 0)
      then (if sign == 1 then neg fl.zero_float else fl.zero_float)
      else if sign == 1
      then neg result
      else result

  -- The dequantized element at `i`.
  abbrev pub dequantized : List ℕ → List ℕ → ℕ → F
  dequantized input scales i =
      fl.mul (bf16_to_f32 fl (get_or input i 0))
        (fp8_e4m3_to_f32 (get_or scales (i / mx_block_size) 0))

  -- The loop of `mx_dequant_bf16`, `n` rounds from `i`.
  unfoldable pub dequant_from : List ℕ → List ℕ → ℕ → ℕ → List F → List F
  dequant_from input scales i zero output = output
  dequant_from input scales i (suc n) output =
      dequant_from input scales (i + 1) n (set output i (dequantized input scales i))

  unfoldable pub mx_dequant_bf16 : List ℕ → List ℕ → List F → ℕ → List F
  unfolding dequant_from
  mx_dequant_bf16 input scales output count = dequant_from input scales 0 count output

  -- The loop of `mx_dot_product`, `n` rounds from `i`.
  unfoldable pub mx_dot_from : List ℕ → List ℕ → List ℕ → ℕ → ℕ → F → F
  mx_dot_from a b b_scales i zero acc = acc
  mx_dot_from a b b_scales i (suc n) acc =
      mx_dot_from a b b_scales (i + 1) n
        (fl.add acc (fl.mul (bf16_to_f32 fl (get_or a i 0)) (dequantized b b_scales i)))

  unfoldable pub mx_dot_product : List ℕ → List ℕ → List ℕ → ℕ → F
  unfolding mx_dot_from
  mx_dot_product a b b_scales dim = mx_dot_from a b b_scales 0 dim fl.zero_float

  -- The greatest magnitude of `n` elements from `i`.
  unfoldable pub amax_from : List F → ℕ → ℕ → F → F
  amax_from input i zero amax = amax
  amax_from input i (suc n) amax =
      let x = get_or input i fl.zero_float in
      let av = if fl.gt fl.zero_float x then neg x else x in
      amax_from input (i + 1) n (if fl.gt av amax then av else amax)

  -- The loop that rounds the scaled elements, `n` rounds from `i`.
  unfoldable pub quant_from : List F → F → ℕ → ℕ → List ℕ → List ℕ
  quant_from input inv_scale i zero output = output
  quant_from input inv_scale i (suc n) output =
      let scaled = fl.mul (get_or input i fl.zero_float) inv_scale in
      quant_from input inv_scale (i + 1) n (set output i (narrow (fl.to_bits scaled)))

  -- The loop over the blocks of `mx_quant_to_bf16`, `n` rounds from block `b`.
  unfoldable pub quant_blocks : List F → ℕ → ℕ → ℕ → List ℕ × List ℕ → List ℕ × List ℕ
  unfolding amax_from quant_from
  quant_blocks input count b zero (output, scales) = (output, scales)
  quant_blocks input count b (suc n) (output, scales) =
      let blk = b * mx_block_size in
      let size = if ltb count (blk + mx_block_size) then count - blk else mx_block_size in
      let amax = amax_from input blk size fl.zero_float in
      let positive = fl.gt amax fl.zero_float in
      let scale = if positive then fl.div amax (of_nat 448) else of_nat 1 in
      let inv_scale = fl.div (of_nat 1) scale in
      quant_blocks input count (b + 1) n
        (quant_from input inv_scale blk size output, set scales b (if positive then 64 else 0))

  unfoldable pub mx_quant_to_bf16 : List F → List ℕ → List ℕ → ℕ → List ℕ × List ℕ
  unfolding quant_blocks
  mx_quant_to_bf16 input output scales count =
      quant_blocks input count 0 ((count + (mx_block_size - 1)) / mx_block_size) (output, scales)

-- The dot product of bfloat16 and floats, `n` rounds from `i`.
unfoldable pub plain_dot : {F : Type 0} → Floats F → List ℕ → List F → ℕ → ℕ → F → F
plain_dot fl a xs i zero acc = acc
plain_dot fl a xs i (suc n) acc =
    plain_dot fl a xs (i + 1) n
      (fl.add acc (fl.mul (bf16_to_f32 fl (get_or a i 0)) (get_or xs i fl.zero_float)))
