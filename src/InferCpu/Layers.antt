-- ===== src/InferCpu/Layers.antt =====
-- What an inference on the CPU computes from a hit and from a miss of the cache.
use xpu_kllm.Prelude.{
  ℕ, zero, suc, ◌+◌, ◌≤◌, ◌<◌, ◌≡◌, refl, ap, ◌∙◌, arith, true, List, ◌++◌, append-nil, some, take,
  drop_all, length, length-take, ==_of_ne, le→ltb, Rc,
}
use xpu_kllm.Arena.{Model}
use xpu_kllm.Index.{Index, lookup}
use xpu_kllm.Index.Again.{lookup-lookup}
use xpu_kllm.Attention.{Floats, Vectors, Build, IsaLevel, ace_attention}
use xpu_kllm.InferCpu.{
  Ctx, Chance, q_size, attend, copied, copy_back, infer_cpu_single_layer, layers_from,
  attention_params,
}

-- The sizes of a model and of a sequence that the attention accepts.
pub record Sized (m : Model) (seq_len : ℕ) : Type 0 where
  pub heads : 0 < m.num_kv_heads
  pub wide : 0 < m.head_dim
  pub tokens : 0 < seq_len

copied_ok :
    (n : ℕ) (output : List ℕ) (idx : Index) (out : Rc × List ℕ)
    → out.0 ≡ Rc.ok
    → copy_back n output idx out ≡ (Rc.ok, copied n out.1 output, idx)
unfolding copy_back
copied_ok n output idx (Rc.ok, a) e = refl
copied_ok n output idx (Rc.fail, a) e = cc

copied_short : (n : ℕ) (xs output : List ℕ) → length output ≤ n → copied n xs output ≡ take n xs
copied_short n xs output h =
    ap (λ (ys : List ℕ). take n xs ++ ys) (drop_all n output h) ∙ append-nil (take n xs)

module _ {F V : Type 0} (fl : Floats F) (vec : Vectors F V) (build : Build) (level : IsaLevel)
    (mem : ℕ → ℕ) (inv_sqrt : ℕ → F) where
  attend_ok :
      (m : Model) (p seq_len layer : ℕ)
      → Sized m seq_len
      → (attend fl vec build level mem inv_sqrt m p seq_len layer).0 ≡ Rc.ok
  unfolding attend ace_attention attention_params
  attend_ok m p seq_len layer sized =
      rw
        (
          ==_of_ne m.head_dim 0 (omega (arith, sized.wide)),
          ==_of_ne seq_len 0 (omega (arith, sized.tokens)),
          ==_of_ne m.num_kv_heads 0 (omega (arith, sized.heads)),
        )
        refl

module _ {F V : Type 0} (fl : Floats F) (vec : Vectors F V) (build : Build) (level : IsaLevel)
    (sha256 : List ℕ → List ℕ) (mem : ℕ → ℕ) (inv_sqrt : ℕ → F) (ctx : Ctx)
    (sequence : List ℕ) where
  -- A layer that finds its block leaves the attention over it, and the index after the lookup.
  layer_hit :
      (layer : ℕ) (env : Chance) (hidden : List ℕ) (idx : Index) (p : ℕ)
      → Sized ctx.model (length sequence)
      → (env.q_fits ≡ true) × (env.output_fits ≡ true)
      → (lookup idx (sha256 sequence) env.now).0 ≡ some p
      → infer_cpu_single_layer fl vec build level sha256 mem inv_sqrt ctx sequence layer env hidden
          (q_size ctx.model)
          idx
        ≡ (
          Rc.ok,
          copied
              (q_size ctx.model)
              (attend fl vec build level mem inv_sqrt ctx.model p (length sequence) layer).1
              hidden,
          (lookup idx (sha256 sequence) env.now).1,
        )
  unfolding infer_cpu_single_layer
  layer_hit layer env hidden idx p sized (q, o) hit =
      rw
        (
          hit,
          ==_of_ne (length sequence) 0 (omega (arith, sized.tokens)),
          q,
          o,
          le→ltb (q_size ctx.model) (q_size ctx.model) (omega arith),
        )
        (copied_ok (q_size ctx.model) hidden (lookup idx (sha256 sequence) env.now).1
          (attend fl vec build level mem inv_sqrt ctx.model p (length sequence) layer)
          (attend_ok fl vec build level mem inv_sqrt ctx.model p (length sequence) layer sized))

  -- The hidden state after `n` more layers that find the block: the attention of the last one.
  pub layers_hit :
      (envs : ℕ → Chance) (layer n : ℕ) (hidden : List ℕ) (idx : Index) (p : ℕ)
      → Sized ctx.model (length sequence)
      → ((k : ℕ) → ((envs k).q_fits ≡ true) × ((envs k).output_fits ≡ true))
      → ((now : ℕ) → (lookup idx (sha256 sequence) now).0 ≡ some p)
      → length hidden ≤ q_size ctx.model
      → (idx' : Index) × (layers_from fl vec build level sha256 mem inv_sqrt ctx sequence envs layer
            (suc n)
            hidden
            idx
          ≡ (
            Rc.ok,
            take
                (q_size ctx.model)
                (attend fl vec build level mem inv_sqrt ctx.model p
                  (length sequence)
                  (layer + n)).1,
            idx',
          ))
  unfolding layers_from
  layers_hit envs layer zero hidden idx p sized fits hit short =
      let out = attend fl vec build level mem inv_sqrt ctx.model p (length sequence) layer in
      let step =
        layer_hit layer (envs layer) hidden idx p sized (fits layer) (hit (envs layer).now) in
      let next = (lookup idx (sha256 sequence) (envs layer).now).1 in
      let last : layer ≡ layer + 0 = omega arith in
      (
        next,
        rw (step, layers_from)
            (ap (λ (o : Rc × List ℕ × Index). (Rc.ok, o.1, o.2)) step
              ∙ ap (λ (xs : List ℕ). (Rc.ok, xs, next))
                  (copied_short (q_size ctx.model) out.1 hidden short)
              ∙ ap
                  (λ (k : ℕ). (
                    Rc.ok,
                    take (q_size ctx.model)
                        (attend fl vec build level mem inv_sqrt ctx.model p (length sequence) k).1,
                    next,
                  ))
                  last),
      )
  layers_hit envs layer (suc n) hidden idx p sized fits hit short =
      let out = attend fl vec build level mem inv_sqrt ctx.model p (length sequence) layer in
      let step =
        layer_hit layer (envs layer) hidden idx p sized (fits layer) (hit (envs layer).now) in
      let next = (lookup idx (sha256 sequence) (envs layer).now).1 in
      let size : length (copied (q_size ctx.model) out.1 hidden) ≤ q_size ctx.model = omega (
        arith,
        ap length (copied_short (q_size ctx.model) out.1 hidden short),
        length-take (q_size ctx.model) out.1,
      ) in
      let (idx', rest) =
        layers_hit envs (layer + 1) n (copied (q_size ctx.model) out.1 hidden) next p sized fits
          (λ now.
            lookup-lookup idx (sha256 sequence) (sha256 sequence) (envs layer).now now ∙ hit now)
          size in
      let last : layer + 1 + n ≡ layer + suc n = omega arith in
      (
        idx',
        rw (step, layers_from)
            (ap
                (λ (o : Rc × List ℕ × Index).
                  layers_from fl vec build level sha256 mem inv_sqrt ctx sequence envs (layer + 1)
                    (suc n) o.1 o.2)
                step
              ∙ rest
              ∙ ap
                  (λ (k : ℕ). (
                    Rc.ok,
                    take (q_size ctx.model)
                        (attend fl vec build level mem inv_sqrt ctx.model p (length sequence) k).1,
                    idx',
                  ))
                  last),
      )
