-- ===== src/Tests/Fetches.antt =====
-- Contexts of the GPU path with blocks of two tokens, over memory that is always there.
use xpu_kllm.Prelude.{
  ℕ, get_or, ◌+◌, ◌*◌, ◌/◌, ◌<◌, min, ◌≡◌, ◌≢◌, refl, arith, Bool, true, false, List, [], ◌∷◌, take,
  length, replicate, none, some,
}
use xpu_kllm.Arena.{Model, block_kv_bytes, block_scale_bytes, block_total_bytes}
use xpu_kllm.Decode.{Result}
use xpu_kllm.Wavefront.{Wavefront, build_kv_fetch}
use xpu_kllm.Wavefront.Fetch.{no_block, block_at, build_kv_fetch_lem}
use xpu_kllm.InferGpu.{
  Event, Mmap, P2p, Ctx, Gpu, create, alloc_region, map_huge_or_plain, with_regions, table_from,
  submit_all, infer_gpu,
}
use xpu_kllm.InferGpu.Gather.{are_sized, blocks_of}
use xpu_kllm.InferGpu.Fetch.{IsReadOf, submit_all_lem, infer_gpu_hangs}
use xpu_kllm.InferGpu.Regions.{Balanced, closed, create-destroy}
use xpu_kllm.Tests.Streams.{naturals}

-- A stand-in for SHA-256: the tokens themselves.
abbrev itself : List ℕ → List ℕ
itself x = x

abbrev five : List ℕ
five = 7 ∷ 8 ∷ 9 ∷ 10 ∷ 11 ∷ []

abbrev tiny : Model
tiny = record { num_layers = 1; num_kv_heads = 1; head_dim = 2; tokens_per_block = 2 }

abbrev lap : Mmap
lap h huge n = some 65536

abbrev uma : P2p
uma = record { gpu_id = 0; drm_fd = none }

abbrev ctx : Ctx
ctx = record {
  has_wf = true;
  p2p = uma;
  model = tiny;
  kv_region = record { gpu_va = 65536; size_bytes = 4096 };
  logits_region = record { gpu_va = 131072; size_bytes = 12 };
  vocab_size = 3;
  block_table = 65536 ∷ 66000 ∷ 67000 ∷ [];
  max_blocks = 3;
}

build_kv_fetch_lem_example :
    let (n, wf) = build_kv_fetch itself five 5 4096 512 in
    (n ≡ min 64 ((5 + 127) / 128))
    × (length wf.blocks ≡ n)
    × ((i : ℕ)
        → i < n
        → ((block_at wf i).obj_key ≡ take (min (128 * (i + 1)) 5) five)
          × ((block_at wf i).vram_dest_addr ≡ 4096 + i * 512))
build_kv_fetch_lem_example = build_kv_fetch_lem itself five 4096 512 (omega arith) (omega arith)

-- The memory behind the block table.
abbrev unknown : ℕ → ℕ
unknown i = 7

abbrev first_128 : List ℕ
first_128 = replicate 128 1

submit_all_lem_example :
    (sent : List Wavefront) × (submit_all itself unknown ctx five ≡ some sent)
    × (are_sized sent ≡ true)
    × (length (blocks_of sent) ≡ 3)
    × ((i : ℕ)
        → i < 3
        → IsReadOf itself unknown ctx five refl i (get_or (blocks_of sent) i no_block))
submit_all_lem_example =
    submit_all_lem itself unknown ctx five refl (omega arith) (omega arith) (omega arith)
      (omega arith)

abbrev idle_gpu : Gpu ℕ
idle_gpu = record {
  malloc = λ g n. (some 1, g);
  release = λ g p. g;
  paged_attention = λ g c q o. (true, g);
}

abbrev no_result : Result ℕ
no_result = record { logits = []; vocab_size = 0; next_token = 0 }

infer_gpu_hangs_example :
    infer_gpu naturals idle_gpu itself unknown 100 1 true ctx five no_result 0 ≡ none
infer_gpu_hangs_example =
    infer_gpu_hangs itself unknown ctx five refl naturals idle_gpu 100 1 true no_result 0
      (omega arith) (omega arith) (omega arith) (omega arith) (omega arith)

not_null : (h : List Event) (huge : Bool) (n : ℕ) → lap h huge n ≢ some 0
not_null h huge n e = ground (arith, e)

create-destroy_example : Balanced [] (closed (create lap true uma tiny 3 8 false []))
create-destroy_example = create-destroy lap not_null true uma tiny 3 8 false []

abbrev made : Ctx
made = record {
  has_wf = true;
  p2p = uma;
  model = tiny;
  kv_region = record { gpu_va = 65536; size_bytes = 580 };
  logits_region = record { gpu_va = 65536; size_bytes = 12 };
  vocab_size = 3;
  block_table = 65536 ∷ 65681 ∷ 65826 ∷ 65971 ∷ [];
  max_blocks = 4;
}

creates : (create lap true uma tiny 3 8 true []).0 ≡ some made
unfolding create alloc_region map_huge_or_plain with_regions table_from block_total_bytes
    block_kv_bytes block_scale_bytes
creates = refl
