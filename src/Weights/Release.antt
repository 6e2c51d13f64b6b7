-- ===== src/Weights/Release.antt =====
-- Which allocator a weight comes from, and which it is given back to.
use xpu_kllm.Prelude.{
  ℕ, zero, suc, ◌+◌, ◌≡◌, refl, sym, ap, ap₂, subst, ◌∙◌, arith, Bool, true, false, ◌&&◌, inl, inr,
  Bool-cases, Option-cases, List, [], ◌∷◌, drop, replicate, Option, none, some,
}
use xpu_kllm.Prelude.Words.{add32, add64}
use xpu_kllm.Weights.{
  Config, Component, component_names, component_size, embed_size, Event, allocated, Answers, Layer,
  Loader, blank_layer, create, alloc_weight, load_one_component, load_components, load_layers,
  load_all, destroy,
}
use xpu_kllm.Weights.Outcome.{embed, body, head, load_all_cases}
use xpu_kllm.Weights.Counts.{
  taken_from, given_to, held, in_layer, in_layers, pointers, share, share-add, share_zero,
  destroy_lem, destroy_taken,
}

one_taken :
    (g b : Bool) (p n : ℕ) (h : List Event)
    → taken_from b (allocated g p n ∷ h) ≡ taken_from b h + share g b 1
one_taken true true p n h = omega arith
one_taken true false p n h = omega arith
one_taken false true p n h = omega arith
one_taken false false p n h = omega arith

module _ (answers : Answers) (component_key : ℕ → Component → List ℕ) where
  -- The allocator of a loader's weights.
  abbrev pub source : Loader → Bool
  source ld = ld.has_gpu && ld.cfg.load_to_gpu

  alloc_weight_taken :
      (b : Bool) (ld : Loader) (h : List Event) (n : ℕ)
      → let (p, h') = alloc_weight answers component_key ld h n in
        (taken_from b h' ≡ taken_from b h + share (source ld) b (held p))
        × (given_to b h' ≡ given_to b h)
  unfolding alloc_weight
  alloc_weight_taken b ld h n = elim (Option-cases (answers h (source ld) n)) [
    | inl e ↦ rw (e, alloc_weight) (omega (arith, share_zero (source ld) b), refl)
    | inr (p, e) ↦ rw (e, alloc_weight) (one_taken (source ld) b p n h, refl)
  ]

  in_layer-drop : (l : Layer) → in_layer l ≡ 0 → in_layer (drop 1 l) ≡ 0
  in_layer-drop [] e = refl
  in_layer-drop ((p, n) ∷ ps) e = ground arith

  -- As many blocks more were taken as `n` pointers, from the loader's allocator, and none given back.
  abbrev Takes : Bool → Loader → List Event → ℕ → List Event → Type 0
  Takes b ld h n h' =
      (taken_from b h' ≡ taken_from b h + share (source ld) b n) × (given_to b h' ≡ given_to b h)

  load_components-Takes :
      (b : Bool) (ld : Loader) (l : ℕ) (cs : List Component) (old : Layer) (bytes : ℕ)
      (h : List Event)
      → in_layer old ≡ 0
      → let r = load_components answers component_key ld l cs old bytes h in
        Takes b ld h (in_layer r.1) r.3
  unfolding load_components load_one_component
  load_components-Takes b ld l [] old bytes h none_old =
      (omega (arith, share_zero (source ld) b, ap (share (source ld) b) none_old), refl)
  load_components-Takes b ld l (c ∷ cs) old bytes h none_old =
      let size = component_size ld.cfg c in
      let got = alloc_weight answers component_key ld h size in
      let (taken, given) = alloc_weight_taken b ld h size in
      let none_left = in_layer-drop old none_old in
      let Result = λ (r : Bool × Layer × ℕ × List Event). Takes b ld h (in_layer r.1) r.3 in
      elim (Option-cases got.0) [
        | inl f ↦
            let all : load_components answers component_key ld l (c ∷ cs) old bytes h
                ≡ (false, (none, size) ∷ drop 1 old, bytes, got.1) =
              rw (f, load_components) refl in
            subst Result (sym all) (
              taken
                  ∙ ap (λ (n : ℕ). taken_from b h + share (source ld) b n)
                      (ap held f ∙ sym none_left ∙ omega arith),
              given,
            )
        | inr (a, f) ↦
            let sent = load_one_component answers component_key ld l c a size got.1 in
            let rest =
              load_components answers component_key ld l cs (drop 1 old) (add64 bytes size)
                sent.1 in
            let (taken', given') =
              load_components-Takes b ld l cs (drop 1 old) (add64 bytes size) sent.1 none_left in
            let here : share (source ld) b (held got.0) ≡ share (source ld) b 1 =
              ap (λ (o : Option ℕ). share (source ld) b (held o)) f in
            elim (Bool-cases ld.has_wf) [
              | inl wf ↦
                  let all : load_components answers component_key ld l (c ∷ cs) old bytes h
                      ≡ (rest.0, (some a, size) ∷ rest.1, rest.2, rest.3) =
                    rw (f, wf, load_components) refl in
                  subst Result (sym all) (
                    omega (arith, taken, taken', here, share-add (source ld) b 1 (in_layer rest.1)),
                    given' ∙ given,
                  )
              | inr no_wf ↦
                  let all : load_components answers component_key ld l (c ∷ cs) old bytes h
                      ≡ (false, (some a, size) ∷ drop 1 old, bytes, sent.1) =
                    rw (f, no_wf, load_components) refl in
                  subst Result (sym all) (
                    omega (
                      arith,
                      taken,
                      here,
                      none_left,
                      share-add (source ld) b 1 (in_layer (drop 1 old)),
                      ap (share (source ld) b) none_left,
                      share_zero (source ld) b,
                    ),
                    given,
                  )
            ]
      ]

  load_layers-Takes :
      (b : Bool) (ld : Loader) (l : ℕ) (layers : List Layer) (loaded bytes : ℕ) (h : List Event)
      → in_layers layers ≡ 0
      → let r = load_layers answers component_key ld l layers loaded bytes h in
        Takes b ld h (in_layers r.1) r.4
  unfolding load_layers
  load_layers-Takes b ld l [] loaded bytes h none_old =
      (omega (arith, share_zero (source ld) b), refl)
  load_layers-Takes b ld l (layer ∷ layers) loaded bytes h none_old =
      let one = load_components answers component_key ld l component_names layer bytes h in
      let rest = load_layers answers component_key ld (l + 1) layers (add32 loaded 1) one.2 one.3 in
      let (taken, given) =
        load_components-Takes b ld l component_names layer bytes h (omega (arith, none_old)) in
      let (taken', given') =
        load_layers-Takes b ld (l + 1) layers (add32 loaded 1) one.2 one.3
          (omega (arith, none_old)) in
      let Result =
        λ (r : Bool × List Layer × ℕ × ℕ × List Event). Takes b ld h (in_layers r.1) r.4 in
      elim (Bool-cases one.0) [
        | inl good ↦
            let all : load_layers answers component_key ld l (layer ∷ layers) loaded bytes h
                ≡ (rest.0, one.1 ∷ rest.1, rest.2, rest.3, rest.4) =
              rw (good, load_layers) refl in
            subst Result (sym all) (
              omega (
                arith,
                taken,
                taken',
                share-add (source ld) b (in_layer one.1) (in_layers rest.1),
              ),
              given' ∙ given,
            )
        | inr bad ↦
            let all : load_layers answers component_key ld l (layer ∷ layers) loaded bytes h
                ≡ (false, one.1 ∷ layers, loaded, one.2, one.3) =
              rw (bad, load_layers) refl in
            let left : in_layers layers ≡ 0 = omega (arith, none_old) in
            subst Result (sym all) (
              taken ∙ ap (λ (n : ℕ). taken_from b h + share (source ld) b n) (omega (arith, left)),
              given,
            )
      ]

in_layers-replicate : (n : ℕ) → in_layers (replicate n blank_layer) ≡ 0
in_layers-replicate zero = refl
in_layers-replicate (suc n) = omega (arith, in_layers-replicate n)

-- What a load takes, however it ends.
load_all-Takes :
    (answers : Answers) (component_key : ℕ → Component → List ℕ) (has_gpu has_wf b : Bool)
    (cfg : Config) (h : List Event)
    → let fresh = create has_gpu has_wf cfg in
      let r = load_all answers component_key fresh h in
      Takes answers component_key b fresh h (pointers r.1) r.2 × (r.1.has_gpu ≡ has_gpu)
unfolding load_all create
load_all-Takes answers component_key has_gpu has_wf b cfg h =
    let fresh = create has_gpu has_wf cfg in
    let size = embed_size cfg in
    let src = has_gpu && cfg.load_to_gpu in
    let first = embed answers component_key fresh h in
    let layers = body answers component_key fresh h in
    let last = head answers component_key fresh h in
    let no_layers : in_layers fresh.layers ≡ 0 = in_layers-replicate cfg.num_layers in
    let (te, ge) = alloc_weight_taken answers component_key b fresh h size in
    let (tb, gb) =
      load_layers-Takes answers component_key b fresh 0 fresh.layers 0 (add64 0 size) first.1
        no_layers in
    let (th, gh) = alloc_weight_taken answers component_key b fresh layers.4 size in
    let Result = λ (r : Bool × Loader × List Event).
      Takes answers component_key b fresh h (pointers r.1) r.2 × (r.1.has_gpu ≡ has_gpu) in
    let count = λ (o : Option ℕ). share src b (held o) in
    let with_share = λ (n : ℕ). taken_from b h + share src b n in
    let behind = λ (n : ℕ). share-add src b n (in_layers layers.1) in
    elim (load_all_cases answers component_key fresh h) [
      | inl (f, r) ↦
          let alone : held first.0 ≡ held none + held none + in_layers fresh.layers =
            omega (arith, ap held f, no_layers) in
          subst Result (sym r) ((te ∙ ap with_share alone, ge), refl)
      | inr (p, f, inl (bad, r)) ↦
          let number : taken_from b layers.4 ≡ with_share (1 + 0 + in_layers layers.1) =
            omega (arith, te, tb, ap count f, behind (1 + 0)) in
          subst Result (sym r) ((number, gb ∙ ge), refl)
      | inr (p, f, inr (good, inl (k, r))) ↦
          let number : taken_from b last.1 ≡ with_share (1 + 0 + in_layers layers.1) =
            omega (arith, te, tb, th, ap count f, ap count k, share_zero src b, behind (1 + 0)) in
          subst Result (sym r) ((number, gh ∙ gb ∙ ge), refl)
      | inr (p, f, inr (good, inr (q, k, r))) ↦
          let number : taken_from b last.1 ≡ with_share (1 + 1 + in_layers layers.1) =
            omega
              (arith, te, tb, th, ap count f, ap count k, share-add src b 1 1, behind (1 + 1)) in
          subst Result (sym r) ((number, gh ∙ gb ∙ ge), refl)
    ]

-- A loader as created, loaded once with success or without, and destroyed: at each of the two
-- allocators, the GPU's and malloc's, as many blocks were taken as the loader has pointers if the
-- weights come from there, and as many were given back if the loader has a GPU or not. So with a
-- GPU and `load_to_gpu` false, all are taken from malloc and given to the GPU's allocator.
pub load_all-destroy :
    (answers : Answers) (component_key : ℕ → Component → List ℕ) (has_gpu has_wf b : Bool)
    (cfg : Config) (h : List Event)
    → let (ok, ld, h') = load_all answers component_key (create has_gpu has_wf cfg) h in
      (taken_from b (destroy ld h')
        ≡ taken_from b h + share (has_gpu && cfg.load_to_gpu) b (pointers ld))
      × (given_to b (destroy ld h') ≡ given_to b h + share has_gpu b (pointers ld))
unfolding load_all create
load_all-destroy answers component_key has_gpu has_wf b cfg h =
    let fresh = create has_gpu has_wf cfg in
    let r = load_all answers component_key fresh h in
    let ((taken, given), same) = load_all-Takes answers component_key has_gpu has_wf b cfg h in
    (
      destroy_taken b r.1 r.2 ∙ taken,
      destroy_lem b r.1 r.2 ∙ ap₂ (λ (n : ℕ) (g : Bool). n + share g b (pointers r.1)) given same,
    )
