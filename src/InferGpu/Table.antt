-- ===== src/InferGpu/Table.antt =====
-- The block table of a context, and the sequences whose blocks it has.
use xpu_kllm.Prelude.{
  ℕ, zero, suc, ◌+◌, ◌*◌, ◌/◌, ◌^◌, ◌≤◌, ◌<◌, ◌≡◌, refl, ap, arith, Bool, inl, inr, Bool-cases,
  Option-cases, List, length, some,
}
use native.Mathlib.Nat.{le-div_iff_mul-le}
use xpu_kllm.Prelude.Words.{add32, sub32, mul64}
use xpu_kllm.Arena.{Model, block_total_bytes}
use xpu_kllm.Wavefront.{blocks_for}
use xpu_kllm.InferGpu.{Event, Mmap, P2p, Ctx, alloc_region, table_from, with_regions, create}

div_mono : (x y k : ℕ) → 0 < k → x ≤ y → x / k ≤ y / k
div_mono x y k h le =
    let low : x / k * k ≤ x = (le-div_iff_mul-le {k = k} {x = x / k} {y = x} h).0 (omega arith) in
    (le-div_iff_mul-le {k = k} {x = x / k} {y = y} h).1 (omega (arith, low, le))

length-table_from : (base bytes i n : ℕ) → length (table_from base bytes i n) ≡ n
unfolding table_from
length-table_from base bytes i zero = refl
length-table_from base bytes i (suc n) = omega (arith, length-table_from base bytes (i + 1) n)

-- A context that was created has a table of as many blocks as its longest sequence needs.
create_table :
    (mmap : Mmap) (has_wf : Bool) (p2p : P2p) (model : Model) (vocab_size max_seq_len : ℕ)
    (buffers : Bool) (h : List Event) (ctx : Ctx)
    → (create mmap has_wf p2p model vocab_size max_seq_len buffers h).0 ≡ some ctx
    → (length ctx.block_table ≡ blocks_for model.tokens_per_block max_seq_len) × (ctx.model ≡ model)
unfolding create with_regions
create_table mmap has_wf p2p model vocab_size max_seq_len buffers h ctx e =
    let needed = blocks_for model.tokens_per_block max_seq_len in
    let bytes = block_total_bytes model in
    let kv = alloc_region mmap p2p h (mul64 bytes needed) in
    let logits = alloc_region mmap p2p kv.1 (mul64 vocab_size 4) in
    elim (Option-cases kv.0) [
      | inl f ↦ absurd (ground (arith, f))
      | inr (k, f) ↦ elim (Option-cases logits.0) [
        | inl f' ↦ absurd (ground (arith, f, f'))
        | inr (l, f') ↦ elim (Bool-cases buffers) [
          | inr short ↦ absurd (ground (arith, f, f', short))
          | inl fit ↦ (
            ground (arith, f, f', fit, length-table_from k.gpu_va bytes 0 needed),
            ground (arith, f, f', fit),
          )
        ]
      ]
    ]

-- In a context created for sequences of up to `max_seq_len` tokens, the block table has an entry
-- for every block of a sequence that is not longer. The lengths and the tokens of a block are below
-- 2 ^ 31 and not 0.
pub create-covers :
    (mmap : Mmap) (has_wf : Bool) (p2p : P2p) (model : Model) (vocab_size max_seq_len : ℕ)
    (buffers : Bool) (h : List Event) (ctx : Ctx) (ids : List ℕ)
    → (create mmap has_wf p2p model vocab_size max_seq_len buffers h).0 ≡ some ctx
    → 0 < length ids
    → length ids ≤ max_seq_len
    → max_seq_len < 2 ^ 31
    → 0 < model.tokens_per_block
    → model.tokens_per_block < 2 ^ 31
    → blocks_for ctx.model.tokens_per_block (length ids) ≤ length ctx.block_table
create-covers mmap has_wf p2p model vocab_size max_seq_len buffers h ctx ids e some_ids le small
      block block_small =
    let (size, same) = create_table mmap has_wf p2p model vocab_size max_seq_len buffers h ctx e in
    let t = model.tokens_per_block in
    let less : sub32 (add32 (length ids) t) 1 ≤ sub32 (add32 max_seq_len t) 1 =
      omega (arith, some_ids, le, small, block, block_small) in
    let mono : blocks_for t (length ids) ≤ blocks_for t max_seq_len =
      div_mono (sub32 (add32 (length ids) t) 1) (sub32 (add32 max_seq_len t) 1) t block less in
    let here : blocks_for ctx.model.tokens_per_block (length ids) ≡ blocks_for t (length ids) =
      ap (λ (m : Model). blocks_for m.tokens_per_block (length ids)) same in
    omega (arith, size, mono, here)
