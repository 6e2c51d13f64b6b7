-- ===== src/Arena.antt =====
-- userspace/kvcache/arena_alloc.c and block_format.h: the slab allocator of the cache's blocks. A
-- pointer is an address, a word of the bitmap is the list of its 64 bits, lowest first, and
-- `bitmap_words` is the length of the bitmap. The mapped region itself is not modelled.
pub mod Bits
pub mod Alloc
pub mod Free
pub mod Create
pub mod Layout
use xpu_kllm.Prelude.{
  ℕ, zero, suc, ◌+◌, ◌-◌, ◌*◌, ◌/◌, ◌%◌, ◌^◌, bit_and, Bool, true, false, List, [], ◌∷◌, ◌++◌,
  Option, none, some, get_or, set, length, replicate, ltb, leb, ◌==◌, if◌then◌else◌,
}
use xpu_kllm.Prelude.Words.{u32, add64, sub64, mul64}

pub record Model : Type 0 where
  pub num_layers : ℕ
  pub num_kv_heads : ℕ
  pub head_dim : ℕ
  pub tokens_per_block : ℕ

pub record Stats : Type 0 where
  pub total_slots : ℕ
  pub used_slots : ℕ
  pub alloc_count : ℕ
  pub free_count : ℕ
  pub eviction_count : ℕ

pub record Arena : Type 0 where
  pub base : ℕ
  pub region_bytes : ℕ
  pub slot_size : ℕ
  pub total_slots : ℕ
  pub bitmap : List (List Bool)
  pub hint : ℕ
  pub stats : Stats

-- The size of `struct kllm_block_hdr`: 120 bytes of fields, rounded up to a multiple of 64.
abbrev pub block_hdr_bytes : ℕ
block_hdr_bytes = 128

unfoldable pub block_kv_bytes : Model → ℕ
block_kv_bytes m =
    let elems = mul64 (mul64 m.tokens_per_block m.num_kv_heads) m.head_dim in
    mul64 (mul64 (mul64 m.num_layers elems) 2) 2

unfoldable pub block_scale_bytes : Model → ℕ
block_scale_bytes m =
    add64
      (mul64 (mul64 (mul64 (mul64 m.num_layers m.tokens_per_block) m.num_kv_heads) m.head_dim) 2) 7
    / 8

unfoldable pub block_total_bytes : Model → ℕ
unfolding block_kv_bytes block_scale_bytes
block_total_bytes m = add64 (add64 block_hdr_bytes (block_kv_bytes m)) (block_scale_bytes m)

-- `(val + align - 1) & ~(align - 1)`.
unfoldable pub align_up : ℕ → ℕ → ℕ
align_up val align = bit_and (sub64 (add64 val align) 1) (2 ^ 64 - align)

abbrev pub full_word : List Bool
full_word = replicate 64 true

-- `(1ULL << n) - 1`.
abbrev pub low_bits : ℕ → List Bool
low_bits n = replicate n true ++ replicate (64 - n) false

-- All words full of ones, and in the last one only the bits of existing slots.
unfoldable pub fresh_bitmap : ℕ → List (List Bool)
fresh_bitmap total_slots =
    let words = (total_slots + 63) / 64 in
    let full = replicate words full_word in
    if ltb 0 (total_slots % 64) then set full (words - 1) (low_bits (total_slots % 64)) else full

-- A new arena at an address.
unfoldable pub made : Model → ℕ → ℕ → Arena
unfolding align_up fresh_bitmap block_total_bytes
made model total_bytes base =
    let slot_size = align_up (block_total_bytes model) 4096 in
    let total_slots = total_bytes / slot_size in
    record {
      base = base;
      region_bytes = total_bytes;
      slot_size = slot_size;
      total_slots = total_slots;
      bitmap = fresh_bitmap total_slots;
      hint = 0;
      stats = record {
        total_slots = total_slots;
        used_slots = 0;
        alloc_count = 0;
        free_count = 0;
        eviction_count = 0;
      };
    }

-- `kllm_arena_create`, given whether the record and the bitmap are allocated and where the region
-- is mapped: with huge pages, or else without.
unfoldable pub create : Model → ℕ → Bool → Option ℕ → Option ℕ → Bool → Option Arena
unfolding made
create model total_bytes allocated huge plain bitmap_allocated =
    let arena : ℕ → Option Arena =
      λ base. if bitmap_allocated then some (made model total_bytes base) else none in
    if allocated
    then (if total_bytes / align_up (block_total_bytes model) 4096 == 0 then none else elim huge [
      | some base ↦ arena base
      | none ↦ elim plain [ some base ↦ arena base | none ↦ none ]
    ])
    else none

-- `__builtin_ctzll` of a word; `none` for the word 0, which is skipped.
unfoldable pub ctz : List Bool → Option ℕ
ctz [] = none
ctz (true ∷ bs) = some 0
ctz (false ∷ bs) = elim (ctz bs) [ none ↦ none | some i ↦ some (suc i) ]

-- The first word with a free bit among `n` words from `w`, and the bit.
unfoldable pub find_word : List (List Bool) → ℕ → ℕ → Option (ℕ × ℕ)
unfolding ctz
find_word bitmap w zero = none
find_word bitmap w (suc n) =
    let rest = find_word bitmap (w + 1) n in
    elim (ctz (get_or bitmap w [])) [ none ↦ rest | some bit ↦ some (w, bit) ]

-- The slot's bit cleared, the hint moved and the statistics counted.
unfoldable pub marked : Arena → ℕ → ℕ → Arena
marked a w bit = record a {
  bitmap = set a.bitmap w (set (get_or a.bitmap w []) bit false);
  hint = w;
  stats = record a.stats {
    used_slots = add64 a.stats.used_slots 1;
    alloc_count = add64 a.stats.alloc_count 1;
  };
}

-- The end of both loops of `kllm_arena_alloc`, at the word and the bit that were found.
unfoldable pub take_slot : Arena → ℕ → ℕ → Option ℕ × Arena
unfolding marked
take_slot a w bit =
    let slot = w * 64 + bit in
    if leb a.total_slots slot
    then (none, a)
    else (some (add64 a.base (mul64 slot a.slot_size)), marked a w bit)

-- From the hint to the end, then from the start to the hint. `none` is NULL.
unfoldable pub alloc : Arena → Option ℕ × Arena
unfolding find_word take_slot
alloc a = elim (find_word a.bitmap a.hint (length a.bitmap - a.hint)) [
  | some (w, bit) ↦ take_slot a w bit
  | none ↦ elim (find_word a.bitmap 0 a.hint) [
    | some (w, bit) ↦ take_slot a w bit
    | none ↦ (none, a)
  ]
]

unfoldable pub free : Arena → ℕ → Arena
free a block =
    let slot = sub64 block a.base / a.slot_size in
    let w = slot / 64 in
    record a {
      bitmap = set a.bitmap w (set (get_or a.bitmap w []) (slot % 64) true);
      hint = if ltb w a.hint then w else a.hint;
      stats = record a.stats {
        used_slots = sub64 a.stats.used_slots 1;
        free_count = add64 a.stats.free_count 1;
      };
    }

unfoldable pub slot_index : Arena → ℕ → ℕ
slot_index a block = u32 (sub64 block a.base / a.slot_size)

unfoldable pub slot_ptr : Arena → ℕ → Option ℕ
slot_ptr a index =
    if leb a.total_slots index then none else some (add64 a.base (mul64 index a.slot_size))
