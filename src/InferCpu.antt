-- ===== src/InferCpu.antt =====
-- userspace/compute/infer_cpu.c: the inference on the CPU, from the token ids of a sequence to the
-- next token, over the cached keys and values. SHA-256 of the tokens, the memory of the blocks as
-- bfloat16 at byte addresses, and `1.0f / sqrtf(n)` are parameters; the clock that a lookup reads
-- is an argument of each layer; whether an allocation succeeds is an answer of the environment.
pub mod Layers
pub mod Outcome
pub mod Reads
use xpu_kllm.Prelude.{
  ℕ, zero, suc, ◌+◌, ◌-◌, ◌*◌, ◌%◌, ◌^◌, Bool, true, false, List, [], ◌∷◌, ◌++◌, Option, none, some,
  take, drop, replicate, get_or, length, ltb, leb, ◌==◌, if◌then◌else◌, Rc,
}
use xpu_kllm.Prelude.Words.{u32, add32, sub32}
use xpu_kllm.Arena.{Model}
use xpu_kllm.Arena.Layout.{block_key, block_value}
use xpu_kllm.Index.{Index, lookup}
use xpu_kllm.Attention.{
  Floats, Vectors, Params, Build, IsaLevel, bf16_to_f32, dot_from, ace_attention,
}

-- `struct kllm_infer_cpu_ctx`, less the index, which the operations thread, and what they do not
-- read.
pub record Ctx : Type 0 where
  pub model : Model
  pub lm_head : Option (List ℕ)
  pub vocab_size : ℕ

pub record Result (F : Type 0) : Type 0 where
  pub logits : Option (List F)
  pub vocab_size : ℕ
  pub next_token : ℕ

-- What the environment gives a layer: the clock, and whether its two buffers are allocated.
pub record Chance : Type 0 where
  pub now : ℕ
  pub q_fits : Bool
  pub output_fits : Bool

abbrev pub q_size : Model → ℕ
q_size m = u32 (m.num_kv_heads * m.head_dim)

-- `n` bfloat16 of the memory from an address on.
unfoldable pub read_array : (ℕ → ℕ) → ℕ → ℕ → List ℕ
read_array mem addr zero = []
read_array mem addr (suc n) = mem addr ∷ read_array mem (addr + 2) n

-- The query of the slice: the keys of the last position, if they lie inside the block.
unfoldable pub synthetic_query : (ℕ → ℕ) → Model → ℕ → ℕ → List ℕ
unfolding read_array
synthetic_query mem m k_data seq_len =
    let last_pos_offset = u32 (u32 (sub32 seq_len 1 * m.num_kv_heads) * m.head_dim) in
    if leb (add32 last_pos_offset (q_size m)) (u32 (m.tokens_per_block * q_size m))
    then read_array mem (k_data + 2 * last_pos_offset) (q_size m)
    else replicate (q_size m) 0

unfoldable pub attention_params : {F : Type 0} → (ℕ → F) → Model → ℕ → Params F
attention_params inv_sqrt m seq_len = record {
  num_heads = m.num_kv_heads;
  head_dim = m.head_dim;
  seq_len = seq_len;
  query_len = 1;
  scale = inv_sqrt m.head_dim;
}

-- `memcpy` of the first elements of the attention's output.
abbrev pub copied : ℕ → List ℕ → List ℕ → List ℕ
copied n from output = take n from ++ drop n output

-- What follows the attention of a layer.
unfoldable pub copy_back : ℕ → List ℕ → Index → Rc × List ℕ → Rc × List ℕ × Index
copy_back n output idx (Rc.fail, attn_output) = (Rc.fail, output, idx)
copy_back n output idx (Rc.ok, attn_output) = (Rc.ok, copied n attn_output output, idx)

module _ {F : Type 0} (fl : Floats F) where
  -- The logits, `n` of them from `v`: the rows of the head against the hidden state, or the hidden
  -- state repeated.
  unfoldable pub head_logits : List ℕ → List ℕ → ℕ → ℕ → ℕ → List F
  unfolding dot_from
  head_logits hidden lm_head hidden_dim v zero = []
  head_logits hidden lm_head hidden_dim v (suc n) =
      dot_from fl (λ i. get_or hidden i 0) 0 (λ i. get_or lm_head i 0) (u32 (v * hidden_dim)) 0
        hidden_dim fl.zero_float
      ∷ head_logits hidden lm_head hidden_dim (v + 1) n

  unfoldable pub synthetic_logits : List ℕ → ℕ → ℕ → ℕ → List F
  unfolding bf16_to_f32
  synthetic_logits hidden hidden_dim v zero = []
  synthetic_logits hidden hidden_dim v (suc n) =
      bf16_to_f32 fl (get_or hidden (v % hidden_dim) 0)
      ∷ synthetic_logits hidden hidden_dim (v + 1) n

  unfoldable pub project : Ctx → List ℕ → List F
  unfolding head_logits synthetic_logits
  project ctx hidden = elim ctx.lm_head [
    | some lm_head ↦ head_logits hidden lm_head (q_size ctx.model) 0 ctx.vocab_size
    | none ↦ synthetic_logits hidden (q_size ctx.model) 0 ctx.vocab_size
  ]

  -- The loop of the argmax, at position `v`.
  unfoldable pub argmax_from : List F → ℕ → F → ℕ → ℕ
  argmax_from [] v max_logit max_idx = max_idx
  argmax_from (x ∷ xs) v max_logit max_idx =
      let better = fl.gt x max_logit in
      argmax_from xs (v + 1) (if better then x else max_logit) (if better then v else max_idx)

  -- What follows the layers. An array of logits that is there is overwritten from the start.
  unfoldable pub conclude : Ctx → Bool → Result F → Rc × List ℕ × Index → Rc × Result F × Index
  unfolding project argmax_from
  conclude ctx logits_fit result (Rc.fail, hidden, idx) = (Rc.fail, result, idx)
  conclude ctx logits_fit result (Rc.ok, hidden, idx) =
      let logits = project ctx hidden in
      let old : List F = elim result.logits [ none ↦ [] | some xs ↦ drop ctx.vocab_size xs ] in
      let there : Bool = elim result.logits [ none ↦ logits_fit | some xs ↦ true ] in
      if there
      then (
        Rc.ok,
        record {
          logits = some (logits ++ old);
          vocab_size = ctx.vocab_size;
          next_token = argmax_from logits 0 fl.neg_infinity 0;
        },
        idx,
      )
      else (Rc.fail, result, idx)

module _ {F V : Type 0} (fl : Floats F) (vec : Vectors F V) (build : Build) (level : IsaLevel)
    (mem : ℕ → ℕ) (inv_sqrt : ℕ → F) where
  -- The attention of a layer over a block, whose keys and values the kernel reads in memory. The
  -- query is a buffer of `q_size` elements.
  unfoldable pub attend : Model → ℕ → ℕ → ℕ → Rc × List ℕ
  unfolding synthetic_query attention_params
  attend m kv_block seq_len layer =
      let k_data = block_key kv_block m layer in
      let v_data = block_value kv_block m layer in
      let query = synthetic_query mem m k_data seq_len in
      ace_attention fl vec build level (some (λ i. get_or query i 0))
        (some (λ i. mem (k_data + 2 * i))) (some (λ i. mem (v_data + 2 * i)))
        (replicate (q_size m) 0) (attention_params inv_sqrt m seq_len)

module _ {F V : Type 0} (fl : Floats F) (vec : Vectors F V) (build : Build) (level : IsaLevel)
    (sha256 : List ℕ → List ℕ) (mem : ℕ → ℕ) (inv_sqrt : ℕ → F) where
  -- `kllm_infer_cpu_single_layer`, for pointers that are not NULL.
  unfoldable pub infer_cpu_single_layer :
      Ctx → List ℕ → ℕ → Chance → List ℕ → ℕ → Index → Rc × List ℕ × Index
  unfolding attend copy_back
  infer_cpu_single_layer ctx sequence layer env output output_dim idx =
      let seq_len = length sequence in
      let (kv_block, idx') = lookup idx (sha256 sequence) env.now in
      let copy_dim = if ltb output_dim (q_size ctx.model) then output_dim else q_size ctx.model in
      if seq_len == 0 then (Rc.fail, output, idx) else elim kv_block [
        | none ↦ (Rc.fail, output, idx')
        | some p ↦
            if env.q_fits
            then (if env.output_fits
                then copy_back copy_dim output idx'
                    (attend fl vec build level mem inv_sqrt ctx.model p seq_len layer)
                else (Rc.fail, output, idx'))
            else (Rc.fail, output, idx')
      ]

  -- The loop over the layers, `n` rounds from `layer`.
  unfoldable pub layers_from :
      Ctx → List ℕ → (ℕ → Chance) → ℕ → ℕ → List ℕ → Index → Rc × List ℕ × Index
  layers_from ctx sequence envs layer zero hidden idx = (Rc.ok, hidden, idx)
  layers_from ctx sequence envs layer (suc n) hidden idx =
      let (rc, hidden', idx') =
        infer_cpu_single_layer ctx sequence layer (envs layer) hidden (q_size ctx.model) idx in
      let rest = layers_from ctx sequence envs (layer + 1) n hidden' idx' in
      elim rc [ Rc.ok ↦ rest | Rc.fail ↦ (Rc.fail, hidden', idx') ]

  -- `kllm_infer_cpu`, given whether the hidden state and the logits are allocated.
  unfoldable pub infer_cpu :
      Ctx → List ℕ → (ℕ → Chance) → Bool → Bool → Result F → Index → Rc × Result F × Index
  unfolding conclude
  infer_cpu ctx sequence envs hidden_fits logits_fit result idx =
      if hidden_fits
      then conclude fl ctx logits_fit result (
          layers_from ctx sequence envs 0 ctx.model.num_layers (replicate (q_size ctx.model) 0) idx)
      else (Rc.fail, result, idx)
