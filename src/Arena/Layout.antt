-- ===== src/Arena/Layout.antt =====
-- userspace/kvcache/block_format.h: where the keys and the values of a layer lie in a block.
use native.Mathlib.Nat.{mul-le-mul_right, le-mul_of_pos_right}
use xpu_kllm.Prelude.{ℕ, ◌+◌, ◌*◌, ◌^◌, ◌≤◌, ◌<◌, ◌≡◌, ap, ◌∙◌, arith}
use xpu_kllm.Prelude.Words.{add64, mul64}
use xpu_kllm.Arena.{Model, block_hdr_bytes, block_kv_bytes}

abbrev pub elems_per_layer : Model → ℕ
elems_per_layer m = mul64 (mul64 m.tokens_per_block m.num_kv_heads) m.head_dim

unfoldable pub block_key : ℕ → Model → ℕ → ℕ
block_key block m layer =
    let layer_stride = mul64 (mul64 (elems_per_layer m) 2) 2 in
    add64 (add64 block block_hdr_bytes) (mul64 layer layer_stride)

unfoldable pub block_value : ℕ → Model → ℕ → ℕ
block_value block m layer =
    let layer_stride = mul64 (mul64 (elems_per_layer m) 2) 2 in
    let k_size = mul64 (elems_per_layer m) 2 in
    add64 (add64 (add64 block block_hdr_bytes) (mul64 layer layer_stride)) k_size

-- The bytes of the keys of a layer, without wrapping.
abbrev pub tensor_bytes : Model → ℕ
tensor_bytes m = m.tokens_per_block * m.num_kv_heads * m.head_dim * 2

elems_lem :
    (m : Model)
    → 0 < m.head_dim
    → tensor_bytes m < 2 ^ 64
    → elems_per_layer m ≡ m.tokens_per_block * m.num_kv_heads * m.head_dim
elems_lem m wide fits =
    let pair = m.tokens_per_block * m.num_kv_heads in
    let small : pair ≤ pair * m.head_dim = le-mul_of_pos_right pair wide in
    let first : mul64 m.tokens_per_block m.num_kv_heads ≡ pair = omega (arith, small, fits) in
    ap (λ (x : ℕ). mul64 x m.head_dim) first ∙ omega (arith, fits)

module _ (m : Model) (block layer : ℕ) (wide : 0 < m.head_dim)
    (fits : block + block_hdr_bytes + m.num_layers * (2 * tensor_bytes m) < 2 ^ 64) where
  stride_lem : 0 < m.num_layers → mul64 (mul64 (elems_per_layer m) 2) 2 ≡ 2 * tensor_bytes m
  stride_lem some_layer =
      let one : 2 * tensor_bytes m ≤ m.num_layers * (2 * tensor_bytes m) = omega (
        arith,
        mul-le-mul_right {m = 1} {n = m.num_layers} (2 * tensor_bytes m)
            (omega (arith, some_layer)),
      ) in
      omega (arith, elems_lem m wide (omega (arith, one, fits)), one, fits)

  block_key_lem :
      0 < m.num_layers
      → layer ≤ m.num_layers
      → block_key block m layer ≡ block + block_hdr_bytes + layer * (2 * tensor_bytes m)
  unfolding block_key
  block_key_lem some_layer le =
      let low = mul-le-mul_right {m = layer} {n = m.num_layers} (2 * tensor_bytes m) le in
      ap (λ (s : ℕ). add64 (add64 block block_hdr_bytes) (mul64 layer s)) (stride_lem some_layer)
      ∙ omega (arith, low, fits)

  block_value_lem :
      layer < m.num_layers
      → block_value block m layer
        ≡ block + block_hdr_bytes + layer * (2 * tensor_bytes m) + tensor_bytes m
  unfolding block_value
  block_value_lem lt =
      let some_layer : 0 < m.num_layers = omega (arith, lt) in
      let next =
        mul-le-mul_right {m = layer + 1} {n = m.num_layers} (2 * tensor_bytes m)
          (omega (arith, lt)) in
      let one : 2 * tensor_bytes m ≤ m.num_layers * (2 * tensor_bytes m) = omega (
        arith,
        mul-le-mul_right {m = 1} {n = m.num_layers} (2 * tensor_bytes m)
            (omega (arith, some_layer)),
      ) in
      let size = elems_lem m wide (omega (arith, one, fits)) in
      let room : layer * (2 * tensor_bytes m) + 2 * tensor_bytes m
          ≤ m.num_layers * (2 * tensor_bytes m) =
        grind (arith, next) in
      ap
        (λ (s : ℕ).
          add64 (add64 (add64 block block_hdr_bytes) (mul64 layer s)) (mul64 (elems_per_layer m) 2))
        (stride_lem some_layer)
      ∙ omega (arith, size, room, fits)

  -- The bytes of all tensors, which the code computes, have not wrapped round.
  block_kv_bytes_lem : 0 < m.num_layers → block_kv_bytes m ≡ m.num_layers * (2 * tensor_bytes m)
  unfolding block_kv_bytes
  block_kv_bytes_lem some_layer =
      let elems = m.tokens_per_block * m.num_kv_heads * m.head_dim in
      let one : 2 * tensor_bytes m ≤ m.num_layers * (2 * tensor_bytes m) = omega (
        arith,
        mul-le-mul_right {m = 1} {n = m.num_layers} (2 * tensor_bytes m)
            (omega (arith, some_layer)),
      ) in
      let size = elems_lem m wide (omega (arith, one, fits)) in
      let whole : m.num_layers * (2 * tensor_bytes m) ≡ m.num_layers * elems * 2 * 2 =
        grind arith in
      ap (λ (x : ℕ). mul64 (mul64 (mul64 m.num_layers x) 2) 2) size ∙ omega (arith, whole, fits)

-- The tensors of a block follow each other behind the header, the keys of a layer, its values, the
-- keys of the next layer, so that they do not overlap, and none ends behind the bytes that the
-- block's size counts for them. The head dimension is not 0, the layer exists, and the block does
-- not wrap round the address space.
pub block_key-block_value :
    (m : Model) (block layer : ℕ)
    → 0 < m.head_dim
    → layer < m.num_layers
    → block + block_hdr_bytes + m.num_layers * (2 * tensor_bytes m) < 2 ^ 64
    → (block_key block m 0 ≡ block + block_hdr_bytes)
      × (block_key block m layer + tensor_bytes m ≡ block_value block m layer)
      × (block_key block m (layer + 1) ≡ block_value block m layer + tensor_bytes m)
      × (block_value block m layer + tensor_bytes m ≤ block + block_hdr_bytes + block_kv_bytes m)
block_key-block_value m block layer wide lt fits =
    let key =
      λ (l : ℕ) (le : l ≤ m.num_layers). block_key_lem m block l wide fits (omega (arith, lt)) le in
    let value = block_value_lem m block layer wide fits lt in
    let here = key layer (omega (arith, lt)) in
    let next = key (layer + 1) (omega (arith, lt)) in
    let room =
      mul-le-mul_right {m = layer + 1} {n = m.num_layers} (2 * tensor_bytes m)
        (omega (arith, lt)) in
    (
      key 0 (omega arith) ∙ omega arith,
      omega (arith, here, value),
      grind (arith, next, value),
      grind (arith, value, room, block_kv_bytes_lem m block layer wide fits (omega (arith, lt))),
    )
