-- ===== src/Weights.antt =====
-- userspace/weights/weight_loader.c: the sizes of a model's weights, their loading layer by layer,
-- and the look-up of a weight. The allocators are a function from the history of calls to an
-- answer; the key of a component, SHA-256 of its printed name, is a parameter.
pub mod Outcome
pub mod Load
pub mod Counts
pub mod Release
use xpu_kllm.Prelude.{
  ℕ, zero, suc, ◌+◌, ◌*◌, Bool, true, false, ◌&&◌, List, [], ◌∷◌, drop, length, get_or, replicate,
  Option, none, some, ltb, leb, ◌==◌, if◌then◌else◌,
}
use xpu_kllm.Prelude.Words.{u32, add32, add64, mul64}
use xpu_kllm.Wavefront.{Wavefront, weight_load, submit}

pub record Config : Type 0 where
  pub num_layers : ℕ
  pub hidden_dim : ℕ
  pub num_heads : ℕ
  pub num_kv_heads : ℕ
  pub head_dim : ℕ
  pub intermediate_dim : ℕ
  pub vocab_size : ℕ
  pub load_to_gpu : Bool

-- The names that the code compares with.
pub data Component : Type 0 where
  wq wk wv wo ffn_up ffn_down : Component

abbrev pub component_names : List Component
component_names = wq ∷ wk ∷ wv ∷ wo ∷ ffn_up ∷ ffn_down ∷ []

abbrev pub index_of : Component → ℕ
index_of wq = 0
index_of wk = 1
index_of wv = 2
index_of wo = 3
index_of ffn_up = 4
index_of ffn_down = 5

unfoldable pub component_size : Config → Component → ℕ
component_size cfg c =
    let hidden = cfg.hidden_dim in
    let kv_dim = u32 (cfg.num_kv_heads * cfg.head_dim) in
    let inter = cfg.intermediate_dim in
    elim c [
      | wq ↦ mul64 (mul64 hidden hidden) 2
      | wk ↦ mul64 (mul64 hidden kv_dim) 2
      | wv ↦ mul64 (mul64 hidden kv_dim) 2
      | wo ↦ mul64 (mul64 hidden hidden) 2
      | ffn_up ↦ mul64 (mul64 hidden inter) 2
      | ffn_down ↦ mul64 (mul64 inter hidden) 2
    ]

abbrev pub embed_size : Config → ℕ
embed_size cfg = mul64 (mul64 cfg.vocab_size cfg.hidden_dim) 2

-- Memory that was allocated, on the GPU or not, with its size; memory given back; and the
-- wavefronts handed to a submission. The latest event comes first.
pub data Event : Type 0 where
  allocated : Bool → ℕ → ℕ → Event
  freed : Bool → ℕ → Event
  submitted : Wavefront → Event

-- The answer of the GPU's allocator, or of malloc, to a size after a history.
abbrev pub Answers : Type 0
Answers = List Event → Bool → ℕ → Option ℕ

-- The pointer and the size of each component of a layer.
abbrev pub Layer : Type 0
Layer = List (Option ℕ × ℕ)

pub record Progress : Type 0 where
  pub layers_loaded : ℕ
  pub layers_total : ℕ
  pub bytes_loaded : ℕ
  pub bytes_total : ℕ
  pub complete : Bool

-- Whether the contexts of the GPU and of the wavefronts, which are stored unchecked, are not NULL,
-- and what the code keeps.
pub record Loader : Type 0 where
  pub has_gpu : Bool
  pub has_wf : Bool
  pub cfg : Config
  pub embedding : Option ℕ
  pub layers : List Layer
  pub lm_head : Option ℕ
  pub progress : Progress

abbrev pub blank_layer : Layer
blank_layer = replicate 6 (none, 0)

-- The loops of the creation that add up the sizes.
unfoldable pub layer_total : Config → List Component → ℕ → ℕ
layer_total cfg [] total = total
layer_total cfg (c ∷ cs) total = layer_total cfg cs (add64 total (component_size cfg c))

unfoldable pub layers_total : Config → ℕ → ℕ → ℕ
unfolding layer_total
layers_total cfg zero total = total
layers_total cfg (suc n) total = layers_total cfg n (layer_total cfg component_names total)

-- `kllm_weight_loader_create`, for allocations that succeed.
unfoldable pub create : Bool → Bool → Config → Loader
unfolding layers_total
create has_gpu has_wf cfg = record {
  has_gpu = has_gpu;
  has_wf = has_wf;
  cfg = cfg;
  embedding = none;
  layers = replicate cfg.num_layers blank_layer;
  lm_head = none;
  progress = record {
    layers_loaded = 0;
    layers_total = cfg.num_layers;
    bytes_loaded = 0;
    bytes_total = layers_total cfg cfg.num_layers (add64 (embed_size cfg) (embed_size cfg));
    complete = false;
  };
}

module _ (answers : Answers) (component_key : ℕ → Component → List ℕ) where
  unfoldable pub alloc_weight : Loader → List Event → ℕ → Option ℕ × List Event
  alloc_weight ld hist size =
      let on_gpu = ld.has_gpu && ld.cfg.load_to_gpu in
      elim (answers hist on_gpu size) [
        | none ↦ (none, hist)
        | some p ↦ (some p, allocated on_gpu p size ∷ hist)
      ]

  unfoldable pub load_one_component :
      Loader → ℕ → Component → ℕ → ℕ → List Event → Bool × List Event
  unfolding submit
  load_one_component ld layer c dest size hist =
      let wf : Wavefront = record {
        flags = weight_load;
        blocks =
            record {
              obj_key = component_key layer c;
              vram_dest_addr = dest;
              block_size = u32 size;
              layer_start = layer;
              layer_count = 1;
            }
            ∷ [];
      } in
      (submit ld.has_wf wf, submitted wf ∷ hist)

  -- The inner loop, from the components that are left and what the layer holds at their places.
  unfoldable pub load_components :
      Loader → ℕ → List Component → Layer → ℕ → List Event → Bool × Layer × ℕ × List Event
  unfolding alloc_weight load_one_component component_size
  load_components ld l [] old bytes hist = (true, old, bytes, hist)
  load_components ld l (c ∷ cs) old bytes hist =
      let size = component_size ld.cfg c in
      let (p, hist1) = alloc_weight ld hist size in
      let rest = load_components ld l cs (drop 1 old) (add64 bytes size) in
      elim p [
        | none ↦ (false, (none, size) ∷ drop 1 old, bytes, hist1)
        | some a ↦
            let (ok, hist2) = load_one_component ld l c a size hist1 in
            let (done, others, bytes', hist3) = rest hist2 in
            if ok
            then (done, (some a, size) ∷ others, bytes', hist3)
            else (false, (some a, size) ∷ drop 1 old, bytes, hist2)
      ]

  unfoldable pub load_layers :
      Loader → ℕ → List Layer → ℕ → ℕ → List Event → Bool × List Layer × ℕ × ℕ × List Event
  unfolding load_components
  load_layers ld l [] loaded bytes hist = (true, [], loaded, bytes, hist)
  load_layers ld l (layer ∷ layers) loaded bytes hist =
      let (ok, layer', bytes1, hist1) = load_components ld l component_names layer bytes hist in
      let (done, rest, loaded', bytes2, hist2) =
        load_layers ld (l + 1) layers (add32 loaded 1) bytes1 hist1 in
      if ok
      then (done, layer' ∷ rest, loaded', bytes2, hist2)
      else (false, layer' ∷ layers, loaded, bytes1, hist1)

  unfoldable pub load_all : Loader → List Event → Bool × Loader × List Event
  unfolding alloc_weight load_layers
  load_all ld hist =
      let size = embed_size ld.cfg in
      let (embed, hist1) = alloc_weight ld hist size in
      let (ok, layers, loaded, bytes, hist2) =
        load_layers ld 0 ld.layers ld.progress.layers_loaded (add64 ld.progress.bytes_loaded size)
          hist1 in
      let (head, hist3) = alloc_weight ld hist2 size in
      elim embed [
        | none ↦ (false, record ld { embedding = none }, hist1)
        | some e ↦
            let stopped : Loader = record ld {
              embedding = some e;
              layers = layers;
              progress = record ld.progress { layers_loaded = loaded; bytes_loaded = bytes };
            } in
            if ok
            then elim head [
              | none ↦ (false, record stopped { lm_head = none }, hist3)
              | some h ↦ (
                true,
                record stopped {
                  lm_head = some h;
                  progress = record stopped.progress {
                    bytes_loaded = add64 bytes size;
                    complete = true;
                  };
                },
                hist3,
              )
            ]
            else (false, stopped, hist2)
      ]

-- `kllm_weight_get_layer`; `none` for a name that is not a component's.
unfoldable pub get_layer : Loader → ℕ → Option Component → Option ℕ
get_layer ld layer component = if leb ld.cfg.num_layers layer then none else elim component [
  | none ↦ none
  | some c ↦ (get_or (get_or ld.layers layer []) (index_of c) (none, 0)).0
]

-- With a GPU every pointer goes to the GPU's allocator, else to `free`; NULL is left out.
unfoldable pub release_ptr : Bool → Option ℕ → List Event → List Event
release_ptr has_gpu none hist = hist
release_ptr has_gpu (some p) hist = freed has_gpu p ∷ hist

unfoldable pub release_layer : Bool → Layer → List Event → List Event
unfolding release_ptr
release_layer has_gpu [] hist = hist
release_layer has_gpu ((p, size) ∷ ps) hist = release_layer has_gpu ps (release_ptr has_gpu p hist)

unfoldable pub release_layers : Bool → List Layer → List Event → List Event
unfolding release_layer
release_layers has_gpu [] hist = hist
release_layers has_gpu (l ∷ ls) hist = release_layers has_gpu ls (release_layer has_gpu l hist)

unfoldable pub destroy : Loader → List Event → List Event
unfolding release_ptr release_layers
destroy ld hist =
    release_layers ld.has_gpu ld.layers
      (release_ptr ld.has_gpu ld.lm_head (release_ptr ld.has_gpu ld.embedding hist))
