-- ===== src/Tests/Loads.antt =====
-- A model of one small layer, loaded from an allocator that always has memory.
use xpu_kllm.Prelude.{ℕ, ◌+◌, ◌≡◌, refl, ap, arith, Bool, true, false, ◌&&◌, List, [], ◌∷◌, some}
use xpu_kllm.Weights.{
  Config, Component, index_of, Answers, create, load_all, alloc_weight, load_one_component,
  load_components, load_layers, destroy,
}
use xpu_kllm.Weights.Load.{IsComplete, load_all_lem}
use xpu_kllm.Weights.Counts.{taken_from, given_to, share, pointers}
use xpu_kllm.Weights.Release.{load_all-destroy}

abbrev plenty : Answers
plenty h on_gpu n = some 4096

abbrev name_key : ℕ → Component → List ℕ
name_key l c = l ∷ index_of c ∷ []

abbrev small : Config
small = record {
  num_layers = 1;
  hidden_dim = 2;
  num_heads = 1;
  num_kv_heads = 1;
  head_dim = 2;
  intermediate_dim = 4;
  vocab_size = 3;
  load_to_gpu = false;
}

loads : (load_all plenty name_key (create true true small) []).0 ≡ true
unfolding load_all alloc_weight load_layers load_components load_one_component create
loads = refl

load_all_lem_example :
    let r = load_all plenty name_key (create true true small) [] in
    IsComplete name_key true small [] r.1 r.2
load_all_lem_example =
    let r = load_all plenty name_key (create true true small) [] in
    load_all_lem plenty name_key true true small [] r.2 r.1 (omega arith)
      (ap (λ (ok : Bool). (ok, r.1, r.2)) loads)

load_all-destroy_example :
    let (ok, ld, h') = load_all plenty name_key (create true true small) [] in
    (taken_from false (destroy ld h') ≡ 0 + share (true && small.load_to_gpu) false (pointers ld))
    × (given_to false (destroy ld h') ≡ 0 + share true false (pointers ld))
load_all-destroy_example = load_all-destroy plenty name_key true true false small []
