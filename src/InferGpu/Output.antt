-- ===== src/InferGpu/Output.antt =====
-- What the inference on the GPU leaves in the result.
use xpu_kllm.Prelude.{
  ◌<◌, ◌≡◌, refl, arith, Bool, inl, inr, Bool-cases, Option-cases, length, ==_of_ne,
}
use xpu_kllm.Prelude.Words.{mul64}
use xpu_kllm.Sampling.{Floats}
use xpu_kllm.Decode.{Result}
use xpu_kllm.InferGpu.{Ctx, Gpu, read_out, attend}

module _ {F G : Type 0} (fl : Floats F) (gpu : Gpu G) (calloc : Bool) (ctx : Ctx)
    (r : Result F) where
  read_out_logits : 0 < length r.logits → (read_out fl gpu calloc ctx r).1.logits ≡ r.logits
  unfolding read_out
  read_out_logits h = rw (==_of_ne (length r.logits) 0 (omega (arith, h))) refl

  -- What follows the fetch never writes logits: where an array of logits is there, it is the same
  -- afterwards, whatever the kernel computed and whether it succeeded or failed.
  pub attend_logits :
      (g : G) → 0 < length r.logits → (attend fl gpu calloc ctx r g).1.logits ≡ r.logits
  unfolding attend
  attend_logits g h =
      let size = mul64 (mul64 ctx.model.num_kv_heads ctx.model.head_dim) 2 in
      let query = gpu.malloc g size in
      let output = gpu.malloc query.1 size in
      elim (Option-cases query.0) [
        | inl e ↦ rw (e, attend) refl
        | inr (q, e) ↦ elim (Option-cases output.0) [
          | inl f ↦ rw (e, f, attend) refl
          | inr (o, f) ↦ elim (Bool-cases (gpu.paged_attention output.1 ctx q o).0) [
            | inl ok ↦ rw (e, f, ok, attend) (read_out_logits h)
            | inr bad ↦ rw (e, f, bad, attend) refl
          ]
        ]
      ]
