-- ===== src/InferGpu.antt =====
-- userspace/compute/infer_gpu.c over userspace/gpu/p2p_dma.c: the context of the GPU path, its fetch
-- of cache blocks, and the inference. The memory mappings are a history of calls, whose answers a
-- function of the history gives; GPU memory and the attention kernel are parameters.
pub mod Gather
pub mod Fetch
pub mod Regions
pub mod Output
pub mod Table
use xpu_kllm.Prelude.{
  ℕ, zero, suc, ◌+◌, ◌*◌, ◌/◌, Bool, true, false, not, ◌&&◌, List, [], ◌∷◌, ◌++◌, take, length,
  get_or, replicate, Option, none, some, ltb, leb, ◌==◌, if◌then◌else◌,
}
use xpu_kllm.Prelude.Words.{u32, add32, sub32, add64, mul64}
use xpu_kllm.Arena.{Model, block_total_bytes}
use xpu_kllm.Sampling.{Floats, sample_greedy}
use xpu_kllm.Decode.{Result}
use xpu_kllm.Wavefront.{
  BlockDesc, Wavefront, kv_fetch, max_blocks, submit, poll, blocks_for, prefix_end,
}

-- Mappings made and given back, by address and size, the latest first.
pub data Event : Type 0 where
  mapped unmapped : ℕ → ℕ → Event

-- What `mmap` answers after a history: with or without huge pages, and the size.
abbrev pub Mmap : Type 0
Mmap = List Event → Bool → ℕ → Option ℕ

-- The descriptor of the GPU's render node; without it, memory is unified.
pub record P2p : Type 0 where
  pub gpu_id : ℕ
  pub drm_fd : Option ℕ

pub record Region : Type 0 where
  pub gpu_va : ℕ
  pub size_bytes : ℕ

-- `has_wf` tells whether the context of the wavefronts, a pointer that is stored unchecked, is not
-- NULL.
pub record Ctx : Type 0 where
  pub has_wf : Bool
  pub p2p : P2p
  pub model : Model
  pub kv_region : Region
  pub logits_region : Region
  pub vocab_size : ℕ
  pub block_table : List ℕ
  pub max_blocks : ℕ

-- A region that was allocated is one of unified memory.
unfoldable pub free_region : Region → List Event → List Event
free_region r hist = if r.gpu_va == 0 then hist else unmapped r.gpu_va r.size_bytes ∷ hist

unfoldable pub table_from : ℕ → ℕ → ℕ → ℕ → List ℕ
table_from base block_bytes i zero = []
table_from base block_bytes i (suc n) =
    add64 base (mul64 i block_bytes) ∷ table_from base block_bytes (i + 1) n

-- What follows the allocation of both regions, `buffers` telling whether the host's buffers fit.
unfoldable pub with_regions :
    Bool → P2p → Model → ℕ → ℕ → ℕ → Bool → Region → Region → List Event → Option Ctx × List Event
unfolding table_from free_region
with_regions has_wf p2p model vocab_size blocks_needed block_bytes buffers kv logits hist =
    if buffers
    then (
      some (record {
        has_wf = has_wf;
        p2p = p2p;
        model = model;
        kv_region = kv;
        logits_region = logits;
        vocab_size = vocab_size;
        block_table = table_from kv.gpu_va block_bytes 0 blocks_needed;
        max_blocks = blocks_needed;
      }),
      hist,
    )
    else (none, free_region kv (free_region logits hist))

unfoldable pub destroy : Ctx → List Event → List Event
unfolding free_region
destroy ctx hist = free_region ctx.kv_region (free_region ctx.logits_region hist)

module _ (mmap : Mmap) where
  unfoldable pub map_huge_or_plain : List Event → ℕ → Option ℕ
  map_huge_or_plain hist size = elim (mmap hist true size) [
    | some p ↦ some p
    | none ↦ mmap hist false size
  ]

  unfoldable pub alloc_region : P2p → List Event → ℕ → Option Region × List Event
  unfolding map_huge_or_plain
  alloc_region p2p hist size = elim p2p.drm_fd [
    | some fd ↦ (none, hist)
    | none ↦ elim (map_huge_or_plain hist size) [
      | none ↦ (none, hist)
      | some va ↦ (some (record { gpu_va = va; size_bytes = size }), mapped va size ∷ hist)
    ]
  ]

  -- `kllm_infer_gpu_create`, where the context and that of the peer-to-peer path are there and
  -- tokens_per_block, by which it divides, is not 0.
  unfoldable pub create : Bool → P2p → Model → ℕ → ℕ → Bool → List Event → Option Ctx × List Event
  unfolding alloc_region free_region with_regions
  create has_wf p2p model vocab_size max_seq_len buffers hist =
      let block_bytes = block_total_bytes model in
      let blocks_needed = blocks_for model.tokens_per_block max_seq_len in
      let (kv, hist1) = alloc_region p2p hist (mul64 block_bytes blocks_needed) in
      let (logits, hist2) = alloc_region p2p hist1 (mul64 vocab_size 4) in
      elim kv [
        | none ↦ (none, hist1)
        | some k ↦ elim logits [
          | none ↦ (none, free_region k hist2)
          | some l ↦
              with_regions has_wf p2p model vocab_size blocks_needed block_bytes buffers k l hist2
        ]
      ]

-- `beyond` is the memory behind the block table, by index.
module _ (sha : List ℕ → List ℕ) (beyond : ℕ → ℕ) where
  unfoldable pub fetch_desc : Ctx → List ℕ → ℕ → BlockDesc
  fetch_desc ctx token_ids b = record {
    obj_key = sha (take (prefix_end ctx.model.tokens_per_block (length token_ids) b) token_ids);
    vram_dest_addr = get_or ctx.block_table b (beyond b);
    block_size = u32 (block_total_bytes ctx.model);
    layer_start = 0;
    layer_count = ctx.model.num_layers;
  }

  -- The loop over the blocks, `n` of them from `b`, with the blocks gathered so far and the
  -- wavefronts that were submitted, oldest first; `none` is a refused submission.
  unfoldable pub gather :
      Ctx
      → List ℕ
      → ℕ
      → ℕ
      → List BlockDesc
      → List Wavefront
      → Option (List BlockDesc × List Wavefront)
  unfolding submit fetch_desc
  gather ctx ids b zero blocks sent = some (blocks, sent)
  gather ctx ids b (suc n) blocks sent =
      let grown = blocks ++ (fetch_desc ctx ids b ∷ []) in
      let wf : Wavefront = record { flags = kv_fetch; blocks = grown } in
      let full = leb max_blocks (length grown) in
      let rest =
        gather ctx ids (b + 1) n (if full then [] else grown)
          (if full then sent ++ (wf ∷ []) else sent) in
      if full && not (submit ctx.has_wf wf) then none else rest

  -- All wavefronts of a fetch.
  unfoldable pub submit_all : Ctx → List ℕ → Option (List Wavefront)
  unfolding gather submit
  submit_all ctx ids =
      elim (gather ctx ids 0 (blocks_for ctx.model.tokens_per_block (length ids)) [] []) [
        | none ↦ none
        | some (blocks, sent) ↦
            let wf : Wavefront = record { flags = kv_fetch; blocks = blocks } in
            if length blocks == 0
            then some sent
            else if submit ctx.has_wf wf
            then some (sent ++ (wf ∷ []))
            else none
      ]

abbrev pub count_blocks : List Wavefront → ℕ
count_blocks [] = 0
count_blocks (w ∷ ws) = length w.blocks + count_blocks ws

-- The loop that waits, with fuel; `completed_by` is what a completion reports.
unfoldable pub wait : ℕ → ℕ → ℕ → ℕ → Option ℕ
unfolding poll
wait zero completed_by completed submitted = none
wait (suc fuel) completed_by completed submitted =
    let rest =
      wait fuel completed_by (if ltb 0 (poll 1) then add32 completed completed_by else completed)
        submitted in
    if ltb completed submitted then rest else some completed

-- `fetch_kv_blocks`: whether it succeeds, or `none` when it faults, by a division by
-- tokens_per_block = 0, or the fuel runs out.
unfoldable pub fetch_kv_blocks : (List ℕ → List ℕ) → (ℕ → ℕ) → ℕ → ℕ → Ctx → List ℕ → Option Bool
unfolding submit_all wait
fetch_kv_blocks sha beyond fuel completed_by ctx ids =
    if ctx.model.tokens_per_block == 0 then none else elim (submit_all sha beyond ctx ids) [
      | none ↦ some false
      | some sent ↦ elim (wait fuel completed_by 0 (u32 (count_blocks sent))) [
        | none ↦ none
        | some n ↦ some true
      ]
    ]

-- GPU memory, and the attention kernel: whether it succeeds.
pub record Gpu (G : Type 0) : Type 0 where
  pub malloc : G → ℕ → Option ℕ × G
  pub release : G → ℕ → G
  pub paged_attention : G → Ctx → ℕ → ℕ → Bool × G

module _ {F G : Type 0} (fl : Floats F) (gpu : Gpu G) where
  unfoldable pub release_if : Option ℕ → G → G
  release_if none g = g
  release_if (some p) g = gpu.release g p

  -- The logits that are read: those that were there, or an array of zeros, if it is allocated.
  unfoldable pub read_out : Bool → Ctx → Result F → Bool × Result F
  unfolding sample_greedy
  read_out calloc ctx r =
      let zeros = replicate ctx.vocab_size fl.zero_float in
      let logits = if length r.logits == 0 then zeros else r.logits in
      if (length r.logits == 0) && not calloc then (false, r) else (
        true,
        record {
          logits = logits;
          vocab_size = ctx.vocab_size;
          next_token = sample_greedy fl (take ctx.vocab_size logits);
        },
      )

  -- What follows the fetch.
  unfoldable pub attend : Bool → Ctx → Result F → G → Bool × Result F × G
  unfolding release_if read_out
  attend calloc ctx r g =
      let size = mul64 (mul64 ctx.model.num_kv_heads ctx.model.head_dim) 2 in
      let (query, g1) = gpu.malloc g size in
      let (output, g2) = gpu.malloc g1 size in
      elim query [
        | none ↦ (false, r, release_if output g2)
        | some q ↦ elim output [
          | none ↦ (false, r, gpu.release g2 q)
          | some o ↦
              let (ok, g3) = gpu.paged_attention g2 ctx q o in
              let (read, r') = read_out calloc ctx r in
              let after = gpu.release (gpu.release g3 q) o in
              if ok then (read, r', after) else (false, r, after)
        ]
      ]

  unfoldable pub infer_gpu :
      (List ℕ → List ℕ)
      → (ℕ → ℕ)
      → ℕ
      → ℕ
      → Bool
      → Ctx
      → List ℕ
      → Result F
      → G
      → Option (Bool × Result F × G)
  unfolding fetch_kv_blocks attend
  infer_gpu sha beyond fuel completed_by calloc ctx ids r g =
      if length ids == 0
      then some (false, r, g)
      else elim (fetch_kv_blocks sha beyond fuel completed_by ctx ids) [
        | none ↦ none
        | some fetched ↦ if fetched then some (attend calloc ctx r g) else some (false, r, g)
      ]

  -- The context of the CPU path is not used.
  unfoldable pub escalate :
      (List ℕ → List ℕ)
      → (ℕ → ℕ)
      → ℕ
      → ℕ
      → Bool
      → Ctx
      → List ℕ
      → Result F
      → G
      → Option (Bool × Result F × G)
  unfolding infer_gpu
  escalate sha beyond fuel completed_by calloc ctx ids r g =
      if length ids == 0
      then some (false, r, g)
      else infer_gpu sha beyond fuel completed_by calloc ctx ids r g
