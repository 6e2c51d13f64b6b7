-- ===== src/Weights/Load.antt =====
-- What a successful load leaves: memory for every weight, a read submitted for every component, and
-- all bytes counted.
use xpu_kllm.Prelude.{
  ℕ, zero, suc, ◌+◌, ◌%◌, ◌^◌, ◌<◌, ◌≡◌, ◌≢◌, refl, sym, ap, ap₂, subst, ◌∙◌, arith, Bool, true,
  ◌&&◌, inl, inr, Bool-cases, Option-cases, List, [], ◌∷◌, drop, length, length-replicate, get_or,
  none, some, lt→leb,
}
use xpu_kllm.Prelude.Words.{add32, add64}
use xpu_kllm.Wavefront.{Wavefront, weight_load}
use xpu_kllm.Weights.{
  Config, Component, wq, wk, wv, wo, ffn_up, ffn_down, component_names, index_of, component_size,
  embed_size, Event, allocated, submitted, Answers, Layer, Loader, blank_layer, layer_total,
  layers_total, create, alloc_weight, load_one_component, load_components, load_layers, load_all,
  get_layer,
}
use xpu_kllm.Weights.Outcome.{embed, body, head, final, load_all_cases}

-- The first `n` components of a layer have memory.
abbrev pub IsLoaded : ℕ → Layer → Type 0
IsLoaded n layer = (j : ℕ) → j < n → (p : ℕ) × ((get_or layer j (none, 0)).0 ≡ some p)

IsLoaded-cons :
    (p size n : ℕ) (layer : Layer) → IsLoaded n layer → IsLoaded (suc n) ((some p, size) ∷ layer)
IsLoaded-cons p size n layer h zero lt = (p, refl)
IsLoaded-cons p size n layer h (suc j) lt = h j (omega arith)

AllLoaded-cons :
    (layer : Layer) (layers : List Layer) (n : ℕ)
    → IsLoaded 6 layer
    → ((i : ℕ) → i < n → IsLoaded 6 (get_or layers i []))
    → (i : ℕ) → i < suc n
    → IsLoaded 6 (get_or (layer ∷ layers) i [])
AllLoaded-cons layer layers n h hs zero lt = h
AllLoaded-cons layer layers n h hs (suc i) lt = hs i (omega arith)

module _ (component_key : ℕ → Component → List ℕ) where
  -- The read of a component into the memory at `dest`.
  abbrev pub read_into : Config → ℕ → Component → ℕ → Wavefront
  read_into cfg l c dest = record {
    flags = weight_load;
    blocks =
        record {
          obj_key = component_key l c;
          vram_dest_addr = dest;
          block_size = component_size cfg c % 2 ^ 32;
          layer_start = l;
          layer_count = 1;
        }
        ∷ [];
  }

  -- The history behind a layer that holds the pointers: each component's memory, then its read.
  abbrev pub behind_layer : Bool → Config → ℕ → List Component → Layer → List Event → List Event
  behind_layer on_gpu cfg l (c ∷ cs) ((some p, n) ∷ ps) h =
      behind_layer on_gpu cfg l cs ps
        (submitted (read_into cfg l c p) ∷ allocated on_gpu p (component_size cfg c) ∷ h)
  behind_layer on_gpu cfg l _ _ h = h

  -- The same for all layers from `l` on.
  abbrev pub behind_layers : Bool → Config → ℕ → List Layer → List Event → List Event
  behind_layers on_gpu cfg l [] h = h
  behind_layers on_gpu cfg l (layer ∷ layers) h =
      behind_layers on_gpu cfg (l + 1) layers (behind_layer on_gpu cfg l component_names layer h)

module _ (answers : Answers) (component_key : ℕ → Component → List ℕ) where
  alloc_weight-allocated :
      (ld : Loader) (h : List Event) (n p : ℕ)
      → (alloc_weight answers component_key ld h n).0 ≡ some p
      → (alloc_weight answers component_key ld h n).1
        ≡ allocated (ld.has_gpu && ld.cfg.load_to_gpu) p n ∷ h
  unfolding alloc_weight
  alloc_weight-allocated ld h n p e =
      elim (Option-cases (answers h (ld.has_gpu && ld.cfg.load_to_gpu) n)) [
        | inl f ↦ absurd (ground (arith, e, f))
        | inr (q, f) ↦
            let same : p ≡ q = ground (arith, e, f) in
            rw (f, alloc_weight)
              (ap (λ (x : ℕ). allocated (ld.has_gpu && ld.cfg.load_to_gpu) x n ∷ h) (sym same))
      ]

  load_components_lem :
      (ld : Loader) (l : ℕ) (cs : List Component) (old : Layer) (bytes : ℕ) (h : List Event)
      → let r = load_components answers component_key ld l cs old bytes h in
        r.0 ≡ true
        → IsLoaded (length cs) r.1
          × (r.2 ≡ layer_total ld.cfg cs bytes)
          × (r.3 ≡ behind_layer component_key (ld.has_gpu && ld.cfg.load_to_gpu) ld.cfg l cs r.1 h)
  unfolding load_components layer_total load_one_component
  load_components_lem ld l [] old bytes h e = (λ j lt. absurd (omega arith), refl, refl)
  load_components_lem ld l (c ∷ cs) old bytes h e =
      let size = component_size ld.cfg c in
      let on_gpu = ld.has_gpu && ld.cfg.load_to_gpu in
      let got = alloc_weight answers component_key ld h size in
      elim (Option-cases got.0) [
        | inl f ↦ absurd (ground (arith, f))
        | inr (a, f) ↦
            let sent = load_one_component answers component_key ld l c a size got.1 in
            let rest =
              load_components answers component_key ld l cs (drop 1 old) (add64 bytes size)
                sent.1 in
            elim (Bool-cases ld.has_wf) [
              | inr no_wf ↦ absurd (ground (arith, f, no_wf))
              | inl wf ↦
                  let all : load_components answers component_key ld l (c ∷ cs) old bytes h
                      ≡ (rest.0, (some a, size) ∷ rest.1, rest.2, rest.3) =
                    rw (f, wf, load_components) refl in
                  let done : rest.0 ≡ true =
                    ap (λ (r : Bool × Layer × ℕ × List Event). r.0) (sym all) ∙ e in
                  let (loaded, counted, subs) =
                    load_components_lem ld l cs (drop 1 old) (add64 bytes size) sent.1 done in
                  (
                    subst (λ (r : Bool × Layer × ℕ × List Event). IsLoaded (suc (length cs)) r.1)
                        (sym all) (IsLoaded-cons a size (length cs) rest.1 loaded),
                    ap (λ (r : Bool × Layer × ℕ × List Event). r.2) all ∙ counted,
                    subst
                        (λ (r : Bool × Layer × ℕ × List Event).
                          r.3 ≡ behind_layer component_key on_gpu ld.cfg l (c ∷ cs) r.1 h)
                        (sym all)
                        (subs
                          ∙ ap
                              (λ (x : List Event).
                                behind_layer component_key on_gpu ld.cfg l cs rest.1
                                  (submitted (read_into component_key ld.cfg l c a) ∷ x))
                              (alloc_weight-allocated ld h size a f)),
                  )
            ]
      ]

  -- The layers from `l` on, all of them loaded.
  load_layers_lem :
      (ld : Loader) (l : ℕ) (layers : List Layer) (loaded bytes : ℕ) (h : List Event)
      → let r = load_layers answers component_key ld l layers loaded bytes h in
        r.0 ≡ true
        → loaded + length layers < 2 ^ 32
        → ((i : ℕ) → i < length layers → IsLoaded 6 (get_or r.1 i []))
          × (r.2 ≡ loaded + length layers)
          × (r.3 ≡ layers_total ld.cfg (length layers) bytes)
          × (r.4 ≡ behind_layers component_key (ld.has_gpu && ld.cfg.load_to_gpu) ld.cfg l r.1 h)
  unfolding load_layers layers_total
  load_layers_lem ld l [] loaded bytes h e small =
      (λ i lt. absurd (omega arith), omega arith, refl, refl)
  load_layers_lem ld l (layer ∷ layers) loaded bytes h e small =
      let on_gpu = ld.has_gpu && ld.cfg.load_to_gpu in
      let one = load_components answers component_key ld l component_names layer bytes h in
      let rest = load_layers answers component_key ld (l + 1) layers (add32 loaded 1) one.2 one.3 in
      elim (Bool-cases one.0) [
        | inr bad ↦ absurd (ground (arith, bad))
        | inl good ↦
            let all : load_layers answers component_key ld l (layer ∷ layers) loaded bytes h
                ≡ (rest.0, one.1 ∷ rest.1, rest.2, rest.3, rest.4) =
              rw (good, load_layers) refl in
            let done : rest.0 ≡ true =
              ap (λ (r : Bool × List Layer × ℕ × ℕ × List Event). r.0) (sym all) ∙ e in
            let (first, counted, subs) =
              load_components_lem ld l component_names layer bytes h good in
            let (others, number, sum, all_subs) =
              load_layers_lem ld (l + 1) layers (add32 loaded 1) one.2 one.3 done
                (omega (arith, small)) in
            (
              subst
                  (λ (r : Bool × List Layer × ℕ × ℕ × List Event).
                    (i : ℕ) → i < suc (length layers) → IsLoaded 6 (get_or r.1 i []))
                  (sym all) (AllLoaded-cons one.1 rest.1 (length layers) first others),
              ap (λ (r : Bool × List Layer × ℕ × ℕ × List Event). r.2) all
                  ∙ omega (arith, number, small),
              ap (λ (r : Bool × List Layer × ℕ × ℕ × List Event). r.3) all
                  ∙ sum
                  ∙ ap (layers_total ld.cfg (length layers)) counted,
              subst
                  (λ (r : Bool × List Layer × ℕ × ℕ × List Event).
                    r.4 ≡ behind_layers component_key on_gpu ld.cfg l r.1 h)
                  (sym all)
                  (all_subs ∙ ap (behind_layers component_key on_gpu ld.cfg (l + 1) rest.1) subs),
            )
      ]

layer_total_start :
    (cfg : Config) (cs : List Component) (a b : ℕ)
    → layer_total cfg cs (add64 a b) ≡ add64 (layer_total cfg cs a) b
unfolding layer_total
layer_total_start cfg [] a b = refl
layer_total_start cfg (c ∷ cs) a b =
    let n = component_size cfg c in
    let swap : add64 (add64 a b) n ≡ add64 (add64 a n) b = omega arith in
    ap (layer_total cfg cs) swap ∙ layer_total_start cfg cs (add64 a n) b

-- A sum may start with what is added at its end.
layers_total_start :
    (cfg : Config) (n a b : ℕ) → layers_total cfg n (add64 a b) ≡ add64 (layers_total cfg n a) b
unfolding layers_total
layers_total_start cfg zero a b = refl
layers_total_start cfg (suc n) a b =
    ap (layers_total cfg n) (layer_total_start cfg component_names a b)
    ∙ layers_total_start cfg n (layer_total cfg component_names a) b

index-lt : (c : Component) → index_of c < 6
index-lt wq = omega arith
index-lt wk = omega arith
index-lt wv = omega arith
index-lt wo = omega arith
index-lt ffn_up = omega arith
index-lt ffn_down = omega arith

-- Everything has memory and is counted, and the history since `h` is the memory of the embedding,
-- then memory and read of each component, then the memory of the output matrix.
abbrev pub IsComplete :
    (ℕ → Component → List ℕ) → Bool → Config → List Event → Loader → List Event → Type 0
IsComplete component_key has_gpu cfg h ld h' =
    let on_gpu = has_gpu && cfg.load_to_gpu in
    (ld.progress.complete ≡ true)
    × (ld.progress.layers_loaded ≡ cfg.num_layers)
    × (ld.progress.bytes_loaded ≡ ld.progress.bytes_total)
    × ((l : ℕ) (c : Component) → l < cfg.num_layers → get_layer ld l (some c) ≢ none)
    × (e : ℕ) × (q : ℕ) × (ld.embedding ≡ some e)
    × (ld.lm_head ≡ some q)
    × (h'
        ≡ allocated on_gpu q (embed_size cfg)
          ∷ behind_layers component_key on_gpu cfg 0 ld.layers
              (allocated on_gpu e (embed_size cfg) ∷ h))

get_layer_lem :
    (ld : Loader) (l : ℕ) (c : Component)
    → l < ld.cfg.num_layers
    → IsLoaded 6 (get_or ld.layers l [])
    → get_layer ld l (some c) ≢ none
unfolding get_layer
get_layer_lem ld l c lt loaded =
    let (p, e) = loaded (index_of c) (index-lt c) in
    rw (lt→leb ld.cfg.num_layers l lt) (λ null. ground (arith, e, null))

-- A load that returns 0, of a loader as created for fewer than 2 ^ 32 layers, ends with the flag
-- `complete`, all layers counted, as many bytes counted as the creation computed, and memory for
-- the embedding, the output matrix and every component of every layer. What it did is, in order: the
-- allocation of the embedding; layer by layer and component by component the allocation of the
-- component's size and the submission of one read of that size, modulo 2 ^ 32, under the key of this
-- layer and component, into the memory that the loader holds for it; and the allocation of the
-- output matrix. The embedding and the output matrix are read by no wavefront.
pub load_all_lem :
    (answers : Answers) (component_key : ℕ → Component → List ℕ) (has_gpu has_wf : Bool)
    (cfg : Config) (h h' : List Event) (ld : Loader)
    → cfg.num_layers < 2 ^ 32
    → load_all answers component_key (create has_gpu has_wf cfg) h ≡ (true, ld, h')
    → IsComplete component_key has_gpu cfg h ld h'
unfolding load_all create
load_all_lem answers component_key has_gpu has_wf cfg h h' ld small e =
    let fresh = create has_gpu has_wf cfg in
    let size = embed_size cfg in
    let on_gpu = has_gpu && cfg.load_to_gpu in
    let first = embed answers component_key fresh h in
    let layers = body answers component_key fresh h in
    let last = head answers component_key fresh h in
    elim (load_all_cases answers component_key fresh h) [
      | inl (f, r) ↦ absurd (ground (arith, r))
      | inr (p, f, inl (bad, r)) ↦ absurd (ground (arith, r))
      | inr (p, f, inr (good, inl (k, r))) ↦ absurd (ground (arith, r))
      | inr (p, f, inr (good, inr (q, k, r))) ↦
          let number : length fresh.layers ≡ cfg.num_layers =
            length-replicate cfg.num_layers blank_layer in
          let (loaded, count, sum, subs) =
            load_layers_lem answers component_key fresh 0 fresh.layers 0 (add64 0 size) first.1 good
              (omega (arith, number, small)) in
          let start : add64 0 size ≡ size = omega arith in
          let bytes : add64 layers.3 size ≡ layers_total cfg cfg.num_layers (add64 size size) =
            ap (λ (b : ℕ). add64 b size) (sum ∙ ap₂ (layers_total cfg) number start)
            ∙ sym (layers_total_start cfg cfg.num_layers size size) in
          let result = final answers component_key fresh h p q in
          let complete : IsComplete component_key has_gpu cfg h result last.1 = (
            refl,
            omega (arith, count, number),
            bytes,
            λ l c lt. get_layer_lem result l c lt (loaded l (omega (arith, number, lt))),
            p,
            q,
            refl,
            refl,
            alloc_weight-allocated answers component_key fresh layers.4 size q k
                ∙ ap (λ (x : List Event). allocated on_gpu q size ∷ x)
                    (subs
                      ∙ ap (behind_layers component_key on_gpu cfg 0 layers.1)
                          (alloc_weight-allocated answers component_key fresh h size p f)),
          ) in
          subst (λ (o : Bool × Loader × List Event). IsComplete component_key has_gpu cfg h o.1 o.2)
            (sym r ∙ e) complete
    ]
