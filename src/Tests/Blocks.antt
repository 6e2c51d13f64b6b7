-- ===== src/Tests/Blocks.antt =====
-- The arena with 64 blocks of 4096 bytes, all of them free.
use xpu_kllm.Prelude.{
  ℕ, zero, suc, ◌*◌, ◌/◌, ◌%◌, ◌<◌, ◌≡◌, ◌⊎◌, refl, arith, Bool, true, false, List, [], ◌∷◌, none,
  some, get_or, length, replicate,
}
use xpu_kllm.Arena.{
  Model, block_kv_bytes, block_scale_bytes, block_total_bytes, align_up, Arena, alloc,
}
use xpu_kllm.Arena.Bits.{bit_at}
use xpu_kllm.Arena.Alloc.{is_free, IsValid, HasTaken, alloc_lem}

abbrev pub full_word : List Bool
full_word = replicate 64 true

abbrev pub all_free : Arena
all_free = record {
  base = 4096;
  region_bytes = 64 * 4096;
  slot_size = 4096;
  total_slots = 64;
  bitmap = full_word ∷ [];
  hint = 0;
  stats = record {
    total_slots = 64;
    used_slots = 0;
    alloc_count = 0;
    free_count = 0;
    eviction_count = 0;
  };
}

one_word : (w : ℕ) → w < 1 → length (get_or (full_word ∷ []) w []) ≡ 64
one_word zero h = refl
one_word (suc w) h = absurd (omega arith)

none_beyond : (w i : ℕ) → 0 < w → get_or (get_or (full_word ∷ []) w []) i false ≡ false
none_beyond zero i h = absurd (omega arith)
none_beyond (suc w) i h = refl

pub all_free-IsValid : IsValid all_free
unfolding bit_at
all_free-IsValid = record {
  slots = omega arith;
  region = omega arith;
  words = omega arith;
  covers = omega arith;
  hint_in = omega arith;
  word = one_word;
  clear = λ slot h. none_beyond (slot / 64) (slot % 64) (omega arith);
}

alloc_lem_example :
    let (p, a') = alloc all_free in
    IsValid a'
    × (HasTaken all_free p a'
        ⊎ ((p ≡ none) × (a' ≡ all_free) × ((slot : ℕ) → is_free all_free slot ≡ false)))
alloc_lem_example = alloc_lem all_free all_free-IsValid

after_alloc : alloc all_free ≡ (some 4096, (alloc all_free).1)
unfolding alloc
after_alloc = refl

abbrev small_model : Model
small_model = record { num_layers = 1; num_kv_heads = 1; head_dim = 8; tokens_per_block = 4 }

one_page : align_up (block_total_bytes small_model) 4096 ≡ 4096
unfolding align_up block_total_bytes block_kv_bytes block_scale_bytes
one_page = refl
