-- ===== src/InferCpu/Reads.antt =====
-- Which memory the attention of a layer reads.
use native.Mathlib.Nat.{mul-le-mul_right, le-mul_of_pos_right, mod-eq_of_lt}
use xpu_kllm.Prelude.{
  ℕ, zero, suc, ◌+◌, ◌-◌, ◌*◌, ◌^◌, ◌≤◌, ◌<◌, ◌≡◌, refl, ap, ap₂, subst, ◌∙◌, arith, List, get_or,
  ◌∷◌, some, replicate, leb, if◌then◌else◌,
}
use xpu_kllm.Prelude.Words.{u32, sub32, add32}
use xpu_kllm.Arena.{Model}
use xpu_kllm.Arena.Layout.{block_key, block_value}
use xpu_kllm.Attention.{Floats, Vectors, Build, IsaLevel, ace_attention}
use xpu_kllm.InferCpu.{q_size, read_array, synthetic_query, attention_params, attend}
use xpu_kllm.Attention.Inside.{Unwrapped, ace_attention_inside}
use xpu_kllm.InferCpu.Layers.{Sized}

-- Two memories that agree on an array of `n` bfloat16.
abbrev pub IsSame : (ℕ → ℕ) → (ℕ → ℕ) → ℕ → ℕ → Type 0
IsSame mem mem' addr n = (i : ℕ) → i < n → mem (addr + 2 * i) ≡ mem' (addr + 2 * i)

read_same :
    (mem mem' : ℕ → ℕ) (addr n : ℕ)
    → IsSame mem mem' addr n
    → read_array mem addr n ≡ read_array mem' addr n
unfolding read_array
read_same mem mem' addr zero same = refl
read_same mem mem' addr (suc n) same =
    let here : addr + 2 * 0 ≡ addr = omega arith in
    ap₂ ◌∷◌ (subst (λ (a : ℕ). mem a ≡ mem' a) here (same 0 (omega arith))) (
      read_same mem mem' (addr + 2) n (λ i lt.
        let there : addr + 2 * (i + 1) ≡ addr + 2 + 2 * i = omega arith in
        subst (λ (a : ℕ). mem a ≡ mem' a) there (same (i + 1) (omega arith))))

one_row : (h d : ℕ) → 1 * h * d ≡ 1 * (h * d)
one_row h d = grind arith

step : (k s h d : ℕ) → s ≡ k + 1 → k * h * d + h * d ≡ s * (h * d)
step k s h d e = grind (arith, e)

module _ (m : Model) (seq_len : ℕ) (sized : Sized m seq_len) (short : seq_len ≤ m.tokens_per_block)
    (words : m.tokens_per_block * (m.num_kv_heads * m.head_dim) < 2 ^ 32) where
  -- The rows of a sequence are inside the tensor, and so is the last row.
  rows_in :
      seq_len * (m.num_kv_heads * m.head_dim) ≤ m.tokens_per_block * (m.num_kv_heads * m.head_dim)
  rows_in =
      mul-le-mul_right {m = seq_len} {n = m.tokens_per_block} (m.num_kv_heads * m.head_dim) short

  last_row :
      u32 (u32 (sub32 seq_len 1 * m.num_kv_heads) * m.head_dim) + q_size m
      ≤ m.tokens_per_block * (m.num_kv_heads * m.head_dim)
  last_row =
      let width = m.num_kv_heads * m.head_dim in
      let one : width ≤ seq_len * width =
        omega (arith, mul-le-mul_right {m = 1} {n = seq_len} width (omega (arith, sized.tokens))) in
      let row : u32 width ≡ width = mod-eq_of_lt (omega (arith, one, rows_in, words)) in
      let some_width : m.num_kv_heads ≤ width = le-mul_of_pos_right m.num_kv_heads sized.wide in
      let length_le : seq_len ≤ seq_len * width =
        le-mul_of_pos_right seq_len (omega (arith, some_width, sized.heads)) in
      let before : sub32 seq_len 1 ≡ seq_len - 1 =
        omega (arith, length_le, rows_in, words, sized.tokens) in
      let sum : (seq_len - 1) * m.num_kv_heads * m.head_dim + width ≡ seq_len * width =
        step (seq_len - 1) seq_len m.num_kv_heads m.head_dim (omega (arith, sized.tokens)) in
      let inner : (seq_len - 1) * m.num_kv_heads ≤ (seq_len - 1) * m.num_kv_heads * m.head_dim =
        le-mul_of_pos_right ((seq_len - 1) * m.num_kv_heads) sized.wide in
      let first : u32 (sub32 seq_len 1 * m.num_kv_heads) ≡ (seq_len - 1) * m.num_kv_heads =
        ap (λ (x : ℕ). u32 (x * m.num_kv_heads)) before
        ∙ mod-eq_of_lt (omega (arith, inner, sum, rows_in, words)) in
      let second : u32 (u32 (sub32 seq_len 1 * m.num_kv_heads) * m.head_dim)
          ≡ (seq_len - 1) * m.num_kv_heads * m.head_dim =
        ap (λ (x : ℕ). u32 (x * m.head_dim)) first
        ∙ mod-eq_of_lt (omega (arith, sum, rows_in, words)) in
      omega (arith, second, row, sum, rows_in)

-- The attention of a layer over a block reads no memory but the tensors of that layer: on two
-- memories that agree on the layer's keys and values it computes the same, on every build and level
-- of the instruction set. No size of the model or of the sequence is 0, the sequence is not longer
-- than a block has tokens, a head has fewer than 2 ^ 32 - 32 elements, and a tensor fewer than
-- 2 ^ 32.
pub attend_inside :
    {F V : Type 0} (fl : Floats F) (vec : Vectors F V) (build : Build) (level : IsaLevel)
    (mem mem' : ℕ → ℕ) (inv_sqrt : ℕ → F) (m : Model) (p seq_len layer : ℕ)
    → Sized m seq_len
    → seq_len ≤ m.tokens_per_block
    → m.head_dim < 2 ^ 32 - 32
    → m.tokens_per_block * (m.num_kv_heads * m.head_dim) < 2 ^ 32
    → IsSame mem mem' (block_key p m layer) (m.tokens_per_block * (m.num_kv_heads * m.head_dim))
    → IsSame mem mem' (block_value p m layer) (m.tokens_per_block * (m.num_kv_heads * m.head_dim))
    → attend fl vec build level mem inv_sqrt m p seq_len layer
      ≡ attend fl vec build level mem' inv_sqrt m p seq_len layer
unfolding attend synthetic_query attention_params
attend_inside fl vec build level mem mem' inv_sqrt m p seq_len layer sized short loops words keys
      values =
    let width = m.num_kv_heads * m.head_dim in
    let inside = rows_in m seq_len sized short words in
    let offset = u32 (u32 (sub32 seq_len 1 * m.num_kv_heads) * m.head_dim) in
    let k_data = block_key p m layer in
    let v_data = block_value p m layer in
    let qs : read_array mem (k_data + 2 * offset) (q_size m)
        ≡ read_array mem' (k_data + 2 * offset) (q_size m) =
      read_same mem mem' (k_data + 2 * offset) (q_size m) (λ i lt.
        let there : k_data + 2 * (offset + i) ≡ k_data + 2 * offset + 2 * i = omega arith in
        subst (λ (a : ℕ). mem a ≡ mem' a) there
          (keys (offset + i) (omega (arith, last_row m seq_len sized short words, lt)))) in
    let query : synthetic_query mem m k_data seq_len ≡ synthetic_query mem' m k_data seq_len =
      ap
        (λ (xs : List ℕ).
          if leb (add32 offset (q_size m)) (u32 (m.tokens_per_block * q_size m))
          then xs
          else replicate (q_size m) 0)
        qs in
    let assoc : seq_len * m.num_kv_heads * m.head_dim ≡ seq_len * width = grind arith in
    let one : 1 * m.num_kv_heads * m.head_dim ≤ seq_len * width = omega (
      arith,
      mul-le-mul_right {m = 1} {n = seq_len} width (omega (arith, sized.tokens)),
      one_row m.num_kv_heads m.head_dim,
    ) in
    let params = attention_params inv_sqrt m seq_len in
    let unwrapped : Unwrapped params = record {
      wide = sized.wide;
      loops = loops;
      query_words = omega (arith, one, inside, words);
      key_words = omega (arith, assoc, inside, words);
    } in
    let buffer = synthetic_query mem' m k_data seq_len in
    let elements : (ℕ → ℕ) = λ i. get_or buffer i 0 in
    ap
      (λ (xs : List ℕ).
        ace_attention fl vec build level (some (λ i. get_or xs i 0))
          (some (λ i. mem (k_data + 2 * i))) (some (λ i. mem (v_data + 2 * i)))
          (replicate (q_size m) 0) params)
      query
    ∙ ace_attention_inside fl vec params unwrapped elements elements (λ i. mem (k_data + 2 * i))
        (λ i. mem' (k_data + 2 * i)) (λ i. mem (v_data + 2 * i)) (λ i. mem' (v_data + 2 * i))
        (λ i lt. refl) (λ i lt. keys i (omega (arith, assoc, inside, lt)))
        (λ i lt. values i (omega (arith, assoc, inside, lt))) (replicate (q_size m) 0) build level
