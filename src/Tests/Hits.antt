-- ===== src/Tests/Hits.antt =====
-- The inference on the CPU for a sequence whose block is cached, and for one that is not.
use xpu_kllm.Prelude.{
  ℕ, ◌+◌, ◌*◌, ◌≤◌, ◌≡◌, ltb, le→ltb, if◌then◌else◌, refl, arith, true, [], ◌∷◌, none, some, take,
  Rc,
}
use xpu_kllm.Arena.Layout.{block_key, block_value}
use xpu_kllm.Attention.{avx512_bf16}
use xpu_kllm.InferCpu.{Ctx, Result, Chance, q_size, attend, project, argmax_from, infer_cpu}
use xpu_kllm.InferCpu.Layers.{Sized}
use xpu_kllm.InferCpu.Outcome.{infer_cpu_hit}
use xpu_kllm.InferCpu.Reads.{attend_inside}
use xpu_kllm.Tests.Kernels.{plain, lanes, both, two_layers}
use xpu_kllm.Tests.Tables.{key, filled, filled_hit}

abbrev ctx : Ctx
ctx = record { model = two_layers; lm_head = none; vocab_size = 3 }

abbrev fine : ℕ → Chance
fine k = record { now = 20; q_fits = true; output_fits = true }

abbrev nothing : Result ℕ
nothing = record { logits = none; vocab_size = 0; next_token = 0 }

abbrev ones : ℕ → ℕ
ones addr = 0x3F80

two_layers-Sized : Sized two_layers 2
two_layers-Sized = record { heads = omega arith; wide = omega arith; tokens = omega arith }

infer_cpu_hit_example :
    let (rc, result', idx') =
      infer_cpu plain lanes both avx512_bf16
        (λ ts. key 5)
        ones
        (λ d. 1)
        ctx
        (7 ∷ 8 ∷ [])
        fine
        true
        true
        nothing
        filled in
    let hidden =
      take
        (q_size two_layers)
        (attend plain lanes both avx512_bf16 ones (λ d. 1) two_layers 4096 2 1).1 in
    (rc ≡ Rc.ok)
    × (result'.logits ≡ some (project plain ctx hidden))
    × (result'.next_token ≡ argmax_from plain (project plain ctx hidden) 0 0 0)
infer_cpu_hit_example =
    infer_cpu_hit plain lanes both avx512_bf16 (λ ts. key 5) ones (λ d. 1) ctx (7 ∷ 8 ∷ []) fine
      nothing filled 1 20 4096 refl two_layers-Sized (λ k. (refl, refl)) refl filled_hit

-- Another memory, which differs below the blocks.
abbrev lower : ℕ → ℕ
lower addr = if ltb addr 4096 then 0 else 0x3F80

above : (a i : ℕ) → 4096 ≤ a → ones (a + 2 * i) ≡ lower (a + 2 * i)
above a i h = rw (le→ltb (a + 2 * i) 4096 (omega arith)) refl

keys_above : 4096 ≤ block_key 4096 two_layers 1
unfolding block_key
keys_above = omega arith

values_above : 4096 ≤ block_value 4096 two_layers 1
unfolding block_value
values_above = omega arith

attend_inside_example :
    attend plain lanes both avx512_bf16 ones (λ d. 1) two_layers 4096 2 1
    ≡ attend plain lanes both avx512_bf16 lower (λ d. 1) two_layers 4096 2 1
attend_inside_example =
    attend_inside plain lanes both avx512_bf16 ones lower (λ d. 1) two_layers 4096 2 1
      two_layers-Sized (omega arith) (omega arith) (omega arith)
      (λ i lt. above (block_key 4096 two_layers 1) i keys_above)
      (λ i lt. above (block_value 4096 two_layers 1) i values_above)
