-- ===== src/Wavefront.antt =====
-- userspace/gpu/nvme_ep_wavefront.c: batches of block reads. SHA-256 of the first `n` tokens' bytes
-- is a parameter, a function of these tokens. The array of blocks is the list of those in use, so
-- num_blocks is its length.
pub mod Fetch
use xpu_kllm.Prelude.{
  ℕ, zero, suc, ◌+◌, ◌*◌, ◌/◌, min, Bool, true, false, not, List, [], ◌∷◌, take, length, ltb, ◌==◌,
  if◌then◌else◌,
}
use xpu_kllm.Prelude.Words.{u32, add32, sub32, add64, mul64}

abbrev pub max_blocks : ℕ
max_blocks = 64

pub data Flag : Type 0 where
  weight_load kv_fetch : Flag

pub record BlockDesc : Type 0 where
  pub obj_key : List ℕ
  pub vram_dest_addr : ℕ
  pub block_size : ℕ
  pub layer_start : ℕ
  pub layer_count : ℕ

pub record Wavefront : Type 0 where
  pub flags : Flag
  pub blocks : List BlockDesc

-- Whether a submission succeeds, `wf_ctx` telling whether there is a context, that is not NULL; it
-- does nothing else yet. No caller passes NULL for the wavefront.
unfoldable pub submit : Bool → Wavefront → Bool
submit wf_ctx wf = if not wf_ctx then false else not (length wf.blocks == 0)

-- The number of completions that a poll fills.
unfoldable pub poll : ℕ → ℕ
poll max_completions = 0

-- How many blocks of `tokens_per_block` tokens a sequence needs, in uint32_t.
abbrev pub blocks_for : ℕ → ℕ → ℕ
blocks_for tokens_per_block seq_len = sub32 (add32 seq_len tokens_per_block) 1 / tokens_per_block

-- The end of block `i`'s prefix.
abbrev pub prefix_end : ℕ → ℕ → ℕ → ℕ
prefix_end tokens_per_block seq_len i =
    let e = u32 (add32 i 1 * tokens_per_block) in if ltb seq_len e then seq_len else e

module _ (sha : List ℕ → List ℕ) where
  -- The loop of `kllm_wavefront_build_kv_fetch`, `n` blocks from `i`.
  unfoldable pub kv_blocks : List ℕ → ℕ → ℕ → ℕ → ℕ → ℕ → List BlockDesc
  kv_blocks token_ids seq_len vram_base size i zero = []
  kv_blocks token_ids seq_len vram_base size i (suc n) =
      record {
        obj_key = sha (take (prefix_end 128 seq_len i) token_ids);
        vram_dest_addr = add64 vram_base (mul64 i size);
        block_size = size;
        layer_start = 0;
        layer_count = 0;
      }
      ∷ kv_blocks token_ids seq_len vram_base size (i + 1) n

  unfoldable pub build_kv_fetch : List ℕ → ℕ → ℕ → ℕ → ℕ × Wavefront
  unfolding kv_blocks
  build_kv_fetch token_ids seq_len vram_base size =
      let needed = blocks_for 128 seq_len in
      let n = if ltb max_blocks needed then max_blocks else needed in
      (n, record { flags = kv_fetch; blocks = kv_blocks token_ids seq_len vram_base size 0 n })

-- The key of a layer's weights is SHA-256 of a printed name, which is a parameter.
module _ (layer_key : ℕ → List ℕ) where
  unfoldable pub weight_blocks : ℕ → ℕ → ℕ → ℕ → List BlockDesc
  weight_blocks layer_start vram_dest i zero = []
  weight_blocks layer_start vram_dest i (suc n) =
      record {
        obj_key = layer_key (add32 layer_start i);
        vram_dest_addr = vram_dest;
        block_size = 0;
        layer_start = add32 layer_start i;
        layer_count = 1;
      }
      ∷ weight_blocks layer_start vram_dest (i + 1) n

  unfoldable pub build_weight_load : ℕ → ℕ → ℕ → ℕ × Wavefront
  unfolding weight_blocks
  build_weight_load layer_start layer_count vram_dest =
      let n = if ltb max_blocks layer_count then max_blocks else layer_count in
      (n, record { flags = weight_load; blocks = weight_blocks layer_start vram_dest 0 n })
