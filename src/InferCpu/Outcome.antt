-- ===== src/InferCpu/Outcome.antt =====
-- `kllm_infer_cpu` on a hit and on a miss of the cache.
use xpu_kllm.Prelude.{
  ℕ, suc, ◌+◌, ◌≡◌, refl, sym, ap, subst, ◌∙◌, arith, Bool, true, List, append-nil, none, some,
  take, replicate, length, length-replicate, Rc, inl, inr, Bool-cases,
}
use xpu_kllm.Index.{Index, lookup}
use xpu_kllm.Index.Again.{lookup_clock}
use xpu_kllm.Attention.{Floats, Vectors, Build, IsaLevel}
use xpu_kllm.InferCpu.{
  Ctx, Result, Chance, q_size, attend, infer_cpu_single_layer, layers_from, project, argmax_from,
  conclude, infer_cpu,
}
use xpu_kllm.InferCpu.Layers.{Sized, layers_hit}

answered :
    {F : Type 0} (fl : Floats F) (ctx : Ctx) (result : Result F) (hidden : List ℕ) (idx : Index)
    → result.logits ≡ none
    → let (rc, result', idx') = conclude fl ctx true result (Rc.ok, hidden, idx) in
      (rc ≡ Rc.ok)
      × (result'.logits ≡ some (project fl ctx hidden))
      × (result'.next_token ≡ argmax_from fl (project fl ctx hidden) 0 fl.neg_infinity 0)
unfolding conclude
answered fl ctx result hidden idx empty =
    rw empty (refl, ap some (append-nil (project fl ctx hidden)), refl)

refused :
    {F : Type 0} (fl : Floats F) (ctx : Ctx) (logits_fit : Bool) (result : Result F)
    (out : Rc × List ℕ × Index)
    → out.0 ≡ Rc.fail
    → ((conclude fl ctx logits_fit result out).0 ≡ Rc.fail)
      × ((conclude fl ctx logits_fit result out).1 ≡ result)
unfolding conclude
refused fl ctx logits_fit result (Rc.fail, hidden, idx) e = (refl, refl)
refused fl ctx logits_fit result (Rc.ok, hidden, idx) e = cc

module _ {F V : Type 0} (fl : Floats F) (vec : Vectors F V) (build : Build) (level : IsaLevel)
    (sha256 : List ℕ → List ℕ) (mem : ℕ → ℕ) (inv_sqrt : ℕ → F) (ctx : Ctx)
    (sequence : List ℕ) where
  layer_miss :
      (layer : ℕ) (env : Chance) (hidden : List ℕ) (output_dim : ℕ) (idx : Index)
      → (lookup idx (sha256 sequence) env.now).0 ≡ none
      → (infer_cpu_single_layer fl vec build level sha256 mem inv_sqrt ctx sequence layer env hidden
          output_dim idx).0
        ≡ Rc.fail
  unfolding infer_cpu_single_layer
  layer_miss layer env hidden output_dim idx miss = ground (arith, miss)

  layers_miss :
      (envs : ℕ → Chance) (layer n : ℕ) (hidden : List ℕ) (idx : Index)
      → (lookup idx (sha256 sequence) (envs layer).now).0 ≡ none
      → (layers_from fl vec build level sha256 mem inv_sqrt ctx sequence envs layer
          (suc n)
          hidden
          idx).0
        ≡ Rc.fail
  unfolding layers_from
  layers_miss envs layer n hidden idx miss =
      rw (layer_miss layer (envs layer) hidden (q_size ctx.model) idx miss, layers_from) refl

-- A sequence whose block is in the cache is answered from the last layer alone: with `n` layers
-- before the last one, the logits are the projection of the attention of layer `n` over the block,
-- whatever the other layers hold, and the next token is their argmax. No size of
-- the model or of the sequence is 0, the result has no array of logits yet, and every allocation
-- succeeds.
pub infer_cpu_hit :
    {F V : Type 0} (fl : Floats F) (vec : Vectors F V) (build : Build) (level : IsaLevel)
    (sha256 : List ℕ → List ℕ) (mem : ℕ → ℕ) (inv_sqrt : ℕ → F) (ctx : Ctx) (sequence : List ℕ)
    (envs : ℕ → Chance) (result : Result F) (idx : Index) (n now p : ℕ)
    → ctx.model.num_layers ≡ suc n
    → Sized ctx.model (length sequence)
    → ((k : ℕ) → ((envs k).q_fits ≡ true) × ((envs k).output_fits ≡ true))
    → result.logits ≡ none
    → (lookup idx (sha256 sequence) now).0 ≡ some p
    → let (rc, result', idx') =
        infer_cpu fl vec build level sha256 mem inv_sqrt ctx sequence envs true true result idx in
      let hidden =
        take
          (q_size ctx.model)
          (attend fl vec build level mem inv_sqrt ctx.model p (length sequence) n).1 in
      (rc ≡ Rc.ok)
      × (result'.logits ≡ some (project fl ctx hidden))
      × (result'.next_token ≡ argmax_from fl (project fl ctx hidden) 0 fl.neg_infinity 0)
unfolding infer_cpu
infer_cpu_hit fl vec build level sha256 mem inv_sqrt ctx sequence envs result idx n now p deep sized
      fits empty hit =
    let (idx', all) =
      layers_hit fl vec build level sha256 mem inv_sqrt ctx sequence envs 0 n
        (replicate (q_size ctx.model) 0) idx p sized fits
        (λ later. lookup_clock idx (sha256 sequence) later now ∙ hit)
        (omega (arith, length-replicate {A = ℕ} (q_size ctx.model) 0)) in
    let last : 0 + n ≡ n = omega arith in
    let hidden = λ (k : ℕ).
      take (q_size ctx.model)
        (attend fl vec build level mem inv_sqrt ctx.model p (length sequence) k).1 in
    let state : layers_from fl vec build level sha256 mem inv_sqrt ctx sequence envs 0
          ctx.model.num_layers (replicate (q_size ctx.model) 0) idx
        ≡ (Rc.ok, hidden n, idx') =
      ap
        (λ (k : ℕ).
          layers_from fl vec build level sha256 mem inv_sqrt ctx sequence envs 0 k
            (replicate (q_size ctx.model) 0) idx)
        deep
      ∙ all
      ∙ ap (λ (k : ℕ). (Rc.ok, hidden k, idx')) last in
    subst
      (λ (out : Rc × List ℕ × Index).
        ((conclude fl ctx true result out).0 ≡ Rc.ok)
        × ((conclude fl ctx true result out).1.logits ≡ some (project fl ctx (hidden n)))
        × ((conclude fl ctx true result out).1.next_token
            ≡ argmax_from fl (project fl ctx (hidden n)) 0 fl.neg_infinity 0))
      (sym state) (answered fl ctx result (hidden n) idx' empty)

-- A sequence whose block is not in the cache is not answered: the inference fails, and leaves the
-- result as it was. The model has a layer.
pub infer_cpu_miss :
    {F V : Type 0} (fl : Floats F) (vec : Vectors F V) (build : Build) (level : IsaLevel)
    (sha256 : List ℕ → List ℕ) (mem : ℕ → ℕ) (inv_sqrt : ℕ → F) (ctx : Ctx) (sequence : List ℕ)
    (envs : ℕ → Chance) (hidden_fits logits_fit : Bool) (result : Result F) (idx : Index)
    (n now : ℕ)
    → ctx.model.num_layers ≡ suc n
    → (lookup idx (sha256 sequence) now).0 ≡ none
    → let (rc, result', idx') =
        infer_cpu fl vec build level sha256 mem inv_sqrt ctx sequence envs hidden_fits logits_fit
          result idx in
      (rc ≡ Rc.fail) × (result' ≡ result)
unfolding infer_cpu
infer_cpu_miss fl vec build level sha256 mem inv_sqrt ctx sequence envs hidden_fits logits_fit
      result idx n now deep miss =
    let lost : (layers_from fl vec build level sha256 mem inv_sqrt ctx sequence envs 0
          ctx.model.num_layers (replicate (q_size ctx.model) 0) idx).0
        ≡ Rc.fail =
      ap
        (λ (k : ℕ).
          (layers_from fl vec build level sha256 mem inv_sqrt ctx sequence envs 0 k
            (replicate (q_size ctx.model) 0) idx).0)
        deep
      ∙ layers_miss fl vec build level sha256 mem inv_sqrt ctx sequence envs 0 n _ idx
          (lookup_clock idx (sha256 sequence) (envs 0).now now ∙ miss) in
    elim (Bool-cases hidden_fits) [
      | inl e ↦ rw e (refused fl ctx logits_fit result _ lost)
      | inr e ↦ rw e (refl, refl)
    ]
