-- ===== src/Tests/Kernels.antt =====
-- Attention and inference over natural numbers in place of floats.
use xpu_kllm.Prelude.{
  ℕ, ◌+◌, ◌-◌, ◌*◌, ◌/◌, ◌%◌, ◌^◌, ◌≤◌, ◌<◌, ◌≡◌, ◌≢◌, ◌⊎◌, ◌↔◌, refl, ap, arith, true, [], ◌∷◌,
  some, get_or, replicate, ltb, Rc,
}
use xpu_kllm.Arena.{Model, block_hdr_bytes, block_kv_bytes}
use xpu_kllm.Arena.Layout.{block_key, block_value, tensor_bytes, block_key-block_value}
use xpu_kllm.Bf16.{widen, narrow, IsNan16, narrow_nearest, narrow-IsNan32}
use xpu_kllm.Attention.{
  Floats, Vectors, Params, Build, avx512_bf16, bf16_to_f32, attention_scalar, ace_attention,
}
use xpu_kllm.Attention.Loops.{cell}
use xpu_kllm.Attention.Reference.{attention_at}
use xpu_kllm.Attention.Cells.{attention_scalar_lem}
use xpu_kllm.Attention.Inside.{Unwrapped}
use xpu_kllm.Attention.Exact.{Naturals, dot_of}
use xpu_kllm.Attention.Levels.{IsSmall, ace_attention_lem}
use xpu_kllm.Microscaling.{mx_dequant_bf16, mx_dot_product, plain_dot}
use xpu_kllm.Microscaling.Fused.{mx_dot_product-mx_dequant_bf16}

abbrev pub plain : Floats ℕ
plain = record {
  of_bits = λ b. b / 2 ^ 16;
  to_bits = λ x. x * 2 ^ 16;
  zero_float = 0;
  neg_infinity = 0;
  add = λ x y. x + y;
  sub = λ x y. x - y;
  mul = λ x y. x * y;
  div = λ x y. x / y;
  exp = λ x. x;
  gt = λ x y. ltb y x;
}

abbrev pub lanes : Vectors ℕ ℕ
lanes = record {
  setzero = 0;
  dpbf16 = λ acc a b. acc + dot_of (bf16_to_f32 plain) a b;
  reduce_add = λ x. x;
}

abbrev naturals : Naturals plain lanes
naturals = record {
  of_nat = λ n. n;
  val = bf16_to_f32 plain;
  IsCount = λ v n. v ≡ n;
  zero_lem = refl;
  add_lem = λ a b h. refl;
  mul_lem = λ a b la lb h. refl;
  setzero_lem = refl;
  dpbf16_lem =
      λ acc n xs ys e lx ly nx ny h. ap (λ (m : ℕ). m + dot_of (bf16_to_f32 plain) xs ys) e;
  reduce_add_lem = λ acc n e h. e;
}

abbrev pub both : Build
both = record { avx512bf16 = true; amx_bf16 = true }

-- One head of 32 elements, one query and two keys.
abbrev one_head : Params ℕ
one_head = record { num_heads = 1; head_dim = 32; seq_len = 2; query_len = 1; scale = 1 }

one_head-Unwrapped : Unwrapped one_head
one_head-Unwrapped = record {
  wide = omega arith;
  loops = omega arith;
  query_words = omega arith;
  key_words = omega arith;
}

abbrev ones : ℕ → ℕ
ones i = 1

abbrev twos : ℕ → ℕ
twos i = 2

one_head-IsSmall : IsSmall plain lanes naturals one_head ones twos
unfolding bf16_to_f32 widen
one_head-IsSmall = record {
  queries = λ i lt. (refl, omega arith);
  keys = λ i lt. (refl, omega arith);
  dots = λ qi si h lq ls lh. omega arith;
}

ace_attention_lem_example :
    ace_attention plain lanes both avx512_bf16
      (some ones)
      (some twos)
      (some ones)
      (replicate 32 0)
      one_head
    ≡ (Rc.ok, attention_scalar plain ones twos ones (replicate 32 0) one_head)
ace_attention_lem_example =
    ace_attention_lem plain lanes naturals both avx512_bf16 one_head ones twos ones (replicate 32 0)
      one_head-Unwrapped refl one_head-IsSmall (omega arith) (omega arith)

attention_scalar_lem_example :
    get_or
      (attention_scalar plain ones twos ones (replicate 32 0) one_head)
      (cell one_head 0 0 31)
      0
    ≡ attention_at plain one_head ones twos ones 0 0 31
attention_scalar_lem_example =
    attention_scalar_lem plain one_head ones twos ones (replicate 32 0) 0 0 31
      (record { wide = omega arith; words = omega arith; room = omega arith }) (omega arith)
      (omega arith) (omega arith) (omega arith)

-- A tie: 1 + 2 ^ -8 rounds down to 1, which is even.
narrow_nearest_example :
    (narrow 0x3F808000 * 2 ^ 16 ≤ 0x3F808000 + 2 ^ 15)
    × (0x3F808000 ≤ narrow 0x3F808000 * 2 ^ 16 + 2 ^ 15)
    × ((0x3F808000 % 2 ^ 16 ≢ 2 ^ 15) ⊎ (narrow 0x3F808000 % 2 ≡ 0))
narrow_nearest_example = narrow_nearest 0x3F808000 (omega arith)

-- The NaN of all ones becomes a zero.
narrow-IsNan32_example :
    (IsNan16 (narrow 0x7FFFFFFF)
      ↔ ((0x7F808000 < 0x7FFFFFFF % 2 ^ 31) × (0x7FFFFFFF % 2 ^ 31 < 0x7FFF8000)))
    × ((narrow 0x7FFFFFFF % 2 ^ 15 ≡ 0x7F80) ↔ (0x7FFFFFFF % 2 ^ 31 ≤ 0x7F808000))
    × ((narrow 0x7FFFFFFF % 2 ^ 15 ≡ 0) ↔ (0x7FFF8000 ≤ 0x7FFFFFFF % 2 ^ 31))
narrow-IsNan32_example = narrow-IsNan32 0x7FFFFFFF (omega arith) (omega arith)

mx_dot_product-mx_dequant_bf16_example :
    mx_dot_product plain
      (λ n. n)
      (λ x. x)
      (replicate 9 0x3F80)
      (replicate 9 0x4000)
      (64 ∷ 72 ∷ [])
      9
    ≡ plain_dot plain
        (replicate 9 0x3F80)
        (mx_dequant_bf16 plain
          (λ n. n)
          (λ x. x)
          (replicate 9 0x4000)
          (64 ∷ 72 ∷ [])
          (replicate 9 0)
          9)
        0
        9
        0
mx_dot_product-mx_dequant_bf16_example =
    mx_dot_product-mx_dequant_bf16 plain (λ n. n) (λ x. x) (replicate 9 0x3F80) (replicate 9 0x4000)
      (64 ∷ 72 ∷ []) (replicate 9 0) 9 (omega arith)

abbrev pub two_layers : Model
two_layers = record { num_layers = 2; num_kv_heads = 1; head_dim = 2; tokens_per_block = 4 }

block_key-block_value_example :
    (block_key 4096 two_layers 0 ≡ 4096 + block_hdr_bytes)
    × (block_key 4096 two_layers 1 + tensor_bytes two_layers ≡ block_value 4096 two_layers 1)
    × (block_key 4096 two_layers (1 + 1) ≡ block_value 4096 two_layers 1 + tensor_bytes two_layers)
    × (block_value 4096 two_layers 1 + tensor_bytes two_layers
        ≤ 4096 + block_hdr_bytes + block_kv_bytes two_layers)
block_key-block_value_example =
    block_key-block_value two_layers 4096 1 (omega arith) (omega arith) (omega arith)
