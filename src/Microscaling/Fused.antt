-- ===== src/Microscaling/Fused.antt =====
-- The fused dot product against dequantizing first.
use xpu_kllm.Prelude.{
  ℕ, zero, suc, ◌+◌, ◌≤◌, ◌<◌, ◌≡◌, refl, sym, ap, ◌∙◌, arith, List, get_or, set, get_or-set_self,
  get_or-set_ne, length, length-set,
}
use native.Mathlib.Decide.{ℕ_discrete}
use xpu_kllm.Attention.{Floats, bf16_to_f32}
use xpu_kllm.Microscaling.{
  dequantized, dequant_from, mx_dequant_bf16, mx_dot_from, mx_dot_product, plain_dot,
}

module _ {F : Type 0} (fl : Floats F) (of_nat : ℕ → F) (neg : F → F) (b scales : List ℕ) where
  before :
      (i n : ℕ) (out : List F) (j : ℕ)
      → j < i
      → get_or (dequant_from fl of_nat neg b scales i n out) j fl.zero_float
        ≡ get_or out j fl.zero_float
  unfolding dequant_from
  before i zero out j lt = refl
  before i (suc n) out j lt =
      before (i + 1) n _ j (omega arith)
      ∙ get_or-set_ne out i j _ fl.zero_float (λ e. absurd (omega (arith, e)))

  element :
      (i n : ℕ) (out : List F) (j : ℕ)
      → i ≤ j
      → j < i + n
      → i + n ≤ length out
      → get_or (dequant_from fl of_nat neg b scales i n out) j fl.zero_float
        ≡ dequantized fl of_nat neg b scales j
  unfolding dequant_from
  element i zero out j le lt room = absurd (omega arith)
  element i (suc n) out j le lt room = elim (ℕ_discrete i j) [
    | yes same ↦
        before (i + 1) n _ j (omega arith)
        ∙ ap (λ (k : ℕ). get_or (set out i (dequantized fl of_nat neg b scales i)) k fl.zero_float)
            (sym same)
        ∙ get_or-set_self out i _ fl.zero_float (omega arith)
        ∙ ap (dequantized fl of_nat neg b scales) same
    | no ne ↦
        element (i + 1) n _ j (omega arith) (omega arith)
          (omega (arith, length-set out i (dequantized fl of_nat neg b scales i)))
  ]

  dots_same :
      (a : List ℕ) (xs : List F) (i n : ℕ) (acc : F)
      → ((j : ℕ)
          → i ≤ j
          → j < i + n
          → get_or xs j fl.zero_float ≡ dequantized fl of_nat neg b scales j)
      → mx_dot_from fl of_nat neg a b scales i n acc ≡ plain_dot fl a xs i n acc
  unfolding mx_dot_from plain_dot
  dots_same a xs i zero acc h = refl
  dots_same a xs i (suc n) acc h =
      ap
        (λ (x : F).
          mx_dot_from fl of_nat neg a b scales (i + 1) n
            (fl.add acc (fl.mul (bf16_to_f32 fl (get_or a i 0)) x)))
        (sym (h i (omega arith) (omega arith)))
      ∙ dots_same a xs (i + 1) n _ (λ j le lt. h j (omega arith) (omega arith))

-- The fused dot product is, float for float, the dot product of `a` with what `mx_dequant_bf16`
-- writes for `b` and its scales, into any output with room for it.
pub mx_dot_product-mx_dequant_bf16 :
    {F : Type 0} (fl : Floats F) (of_nat : ℕ → F) (neg : F → F) (a b scales : List ℕ)
    (output : List F) (dim : ℕ)
    → dim ≤ length output
    → mx_dot_product fl of_nat neg a b scales dim
      ≡ plain_dot fl a (mx_dequant_bf16 fl of_nat neg b scales output dim) 0 dim fl.zero_float
unfolding mx_dot_product mx_dequant_bf16
mx_dot_product-mx_dequant_bf16 fl of_nat neg a b scales output dim room =
    dots_same fl of_nat neg b scales a _ 0 dim fl.zero_float
      (λ j le lt. element fl of_nat neg b scales 0 dim output j le lt (omega arith))
