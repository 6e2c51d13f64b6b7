-- ===== src/InferGpu/Fetch.antt =====
-- The fetch of a sequence's blocks: which wavefronts it submits, and that its wait has no end.
use xpu_kllm.Prelude.{
  ℕ, zero, suc, ◌+◌, ◌-◌, ◌^◌, ◌≤◌, ◌<◌, ◌≡◌, refl, sym, ap, ◌∙◌, arith, Bool, true, List, [], ◌∷◌,
  length, get_or, get_elem?, take, min, ◌*◌, ◌/◌, ◌%◌, subst, if◌then◌else◌, none, some, ltb,
  lt→ltb, ==_of_ne,
}
use native.Mathlib.Nat.{le-div_iff_mul-le, div-le_self, le-mul_of_pos_right, mod-eq_of_lt}
use xpu_kllm.Prelude.Words.{u32, add32, sub32}
use xpu_kllm.Sampling.{Floats}
use xpu_kllm.Decode.{Result}
use xpu_kllm.Wavefront.{BlockDesc, Wavefront, poll, blocks_for, prefix_end}
use xpu_kllm.Wavefront.Fetch.{no_block}
use xpu_kllm.Arena.{block_total_bytes}
use xpu_kllm.InferGpu.Gather.{
  blocks_of, are_sized, count_blocks_lem, length-reads, submit_all-reads, get-reads,
}
use xpu_kllm.InferGpu.{
  Ctx, fetch_desc, submit_all, count_blocks, wait, fetch_kv_blocks, Gpu, infer_gpu,
}

get_elem-get_or : (xs : List ℕ) (i d : ℕ) → i < length xs → get_elem? xs i ≡ some (get_or xs i d)
get_elem-get_or [] i d lt = absurd (omega arith)
get_elem-get_or (x ∷ xs) zero d lt = refl
get_elem-get_or (x ∷ xs) (suc i) d lt = get_elem-get_or xs i d (omega arith)

module _ (sha : List ℕ → List ℕ) (beyond : ℕ → ℕ) (ctx : Ctx) (ids : List ℕ)
    (has_wf : ctx.has_wf ≡ true) where
  -- How many blocks the sequence has, the last one perhaps not full.
  abbrev pub block_count : ℕ
  block_count = (length ids + ctx.model.tokens_per_block - 1) / ctx.model.tokens_per_block

  -- The read of block `i`: the tokens up to its end as key, the table's entry as destination.
  abbrev pub IsReadOf : ℕ → BlockDesc → Type 0
  IsReadOf i d =
      (d.obj_key ≡ sha (take (min ((i + 1) * ctx.model.tokens_per_block) (length ids)) ids))
      × (get_elem? ctx.block_table i ≡ some d.vram_dest_addr)
      × (d.block_size ≡ block_total_bytes ctx.model % 2 ^ 32)
      × (d.layer_start ≡ 0)
      × (d.layer_count ≡ ctx.model.num_layers)

  module _ (block : 0 < ctx.model.tokens_per_block)
      (block_small : ctx.model.tokens_per_block < 2 ^ 31) (small : length ids < 2 ^ 31) where
    count_lem : blocks_for ctx.model.tokens_per_block (length ids) ≡ block_count
    count_lem =
        let t = ctx.model.tokens_per_block in
        let sum : sub32 (add32 (length ids) t) 1 ≡ length ids + t - 1 =
          omega (arith, block, block_small, small) in
        ap (λ (x : ℕ). x / t) sum

    prefix_end_lem :
        (i : ℕ)
        → i < block_count
        → prefix_end ctx.model.tokens_per_block (length ids) i
          ≡ min ((i + 1) * ctx.model.tokens_per_block) (length ids)
    prefix_end_lem i lt =
        let t = ctx.model.tokens_per_block in
        let all = length ids + t - 1 in
        let end : (i + 1) * t ≤ all =
          (le-div_iff_mul-le {k = t} {x = i + 1} {y = all} block).0 (omega (arith, lt)) in
        let some_t : i + 1 ≤ (i + 1) * t = le-mul_of_pos_right (i + 1) block in
        let next : add32 i 1 ≡ i + 1 = omega (arith, some_t, end, block_small, small) in
        let whole : u32 (add32 i 1 * t) ≡ (i + 1) * t =
          ap (λ (x : ℕ). u32 (x * t)) next
          ∙ mod-eq_of_lt (omega (arith, end, block_small, small)) in
        ap (λ (e : ℕ). if ltb (length ids) e then length ids else e) whole ∙ ground arith

    read_lem :
        (i : ℕ)
        → i < block_count
        → block_count ≤ length ctx.block_table
        → IsReadOf i (fetch_desc sha beyond ctx ids i)
    unfolding fetch_desc
    read_lem i lt room = (
      ap (λ (e : ℕ). sha (take e ids)) (prefix_end_lem i lt),
      get_elem-get_or ctx.block_table i (beyond i) (omega (arith, lt, room)),
      refl,
      refl,
      refl,
    )

    -- For a context with a wavefront context and a sequence, with blocks of 1 to 2 ^ 31 - 1 tokens,
    -- fewer than 2 ^ 31 tokens, and an entry of the block table for every block: a fetch submits
    -- wavefronts of 1 to 64 blocks, none refused. Together they read as many blocks as the
    -- sequence has, in order; block `i` is read under the key of the tokens up to its end, or of
    -- all if there are fewer, to the address of entry `i`, with the model's block size, modulo
    -- 2 ^ 32, and all its layers.
    pub submit_all_lem :
        block_count ≤ length ctx.block_table
        → (sent : List Wavefront) × (submit_all sha beyond ctx ids ≡ some sent)
          × (are_sized sent ≡ true)
          × (length (blocks_of sent) ≡ block_count)
          × ((i : ℕ) → i < block_count → IsReadOf i (get_or (blocks_of sent) i no_block))
    submit_all_lem room =
        let n = blocks_for ctx.model.tokens_per_block (length ids) in
        let (sent, e, sized, all) = submit_all-reads sha beyond ctx ids has_wf in
        (
          sent,
          e,
          sized,
          ap length all ∙ length-reads sha beyond ctx ids has_wf 0 n ∙ count_lem,
          λ i lt.
              let start : 0 + i ≡ i = omega arith in
              let here : get_or (blocks_of sent) i no_block ≡ fetch_desc sha beyond ctx ids i =
                ap (λ (bs : List BlockDesc). get_or bs i no_block) all
                ∙ get-reads sha beyond ctx ids has_wf 0 n i (omega (arith, lt, count_lem))
                ∙ ap (fetch_desc sha beyond ctx ids) start in
              subst (IsReadOf i) (sym here) (read_lem i lt room),
        )

  -- The wait polls for completions, and a poll reports none.
  wait-none :
      (fuel completed_by completed submitted : ℕ)
      → completed < submitted
      → wait fuel completed_by completed submitted ≡ none
  unfolding wait poll
  wait-none zero completed_by completed submitted lt = refl
  wait-none (suc fuel) completed_by completed submitted lt =
      rw (lt→ltb completed submitted lt) (wait-none fuel completed_by completed submitted lt)

  -- For a context with a wavefront context, a sequence that is not empty and blocks that are not,
  -- both of fewer than 2 ^ 31 tokens, with an entry of the block table for every block, the
  -- inference on the GPU never returns, whatever the completions would report and however long it
  -- polls.
  pub infer_gpu_hangs :
      {F G : Type 0} (fl : Floats F) (gpu : Gpu G) (fuel completed_by : ℕ) (calloc : Bool)
      (r : Result F) (g : G)
      → 0 < length ids
      → length ids < 2 ^ 31
      → 0 < ctx.model.tokens_per_block
      → ctx.model.tokens_per_block < 2 ^ 31
      → block_count ≤ length ctx.block_table
      → infer_gpu fl gpu sha beyond fuel completed_by calloc ctx ids r g ≡ none
  unfolding infer_gpu fetch_kv_blocks
  infer_gpu_hangs fl gpu fuel completed_by calloc r g h small block blocks_small room =
      let t = ctx.model.tokens_per_block in
      let (sent, e, sized, all) = submit_all-reads sha beyond ctx ids has_wf in
      let count : count_blocks sent ≡ blocks_for t (length ids) =
        count_blocks_lem sent
        ∙ ap length all
        ∙ length-reads sha beyond ctx ids has_wf 0 (blocks_for t (length ids)) in
      let sum : sub32 (add32 (length ids) t) 1 ≡ length ids + t - 1 =
        omega (arith, h, small, block, blocks_small) in
      let some_blocks : 1 ≤ blocks_for t (length ids) =
        (le-div_iff_mul-le {k = t} {x = 1} {y = sub32 (add32 (length ids) t) 1} block).1
          (omega (arith, sum, h)) in
      let few : blocks_for t (length ids) < 2 ^ 32 =
        omega (arith, sum, div-le_self (sub32 (add32 (length ids) t) 1) t) in
      rw
        (
          ==_of_ne (length ids) 0 (omega (arith, h)),
          ==_of_ne t 0 (omega (arith, block)),
          e,
          wait-none fuel completed_by 0 (u32 (count_blocks sent))
              (omega (arith, count, some_blocks, few)),
        )
        refl
