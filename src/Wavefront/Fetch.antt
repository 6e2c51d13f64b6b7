-- ===== src/Wavefront/Fetch.antt =====
-- The reads that a wavefront of cache blocks asks for.
use xpu_kllm.Prelude.{
  ℕ, zero, suc, ◌+◌, ◌*◌, ◌/◌, ◌^◌, ◌≤◌, ◌<◌, min, ◌≡◌, refl, ap, ◌∙◌, arith, List, [], ◌∷◌, ◌++◌,
  take, get_or, length, length-append, ltb, if◌then◌else◌,
}
use native.Mathlib.Nat.{mul-le-mul_right}
use xpu_kllm.Prelude.Words.{add64, mul64}
use xpu_kllm.Wavefront.{
  max_blocks, BlockDesc, Wavefront, blocks_for, prefix_end, kv_blocks, build_kv_fetch,
}

abbrev pub no_block : BlockDesc
no_block = record {
  obj_key = [];
  vram_dest_addr = 0;
  block_size = 0;
  layer_start = 0;
  layer_count = 0;
}

abbrev pub block_at : Wavefront → ℕ → BlockDesc
block_at wf i = get_or wf.blocks i no_block

take-append_length : (xs ys : List ℕ) → take (length xs) (xs ++ ys) ≡ xs
take-append_length [] [] = refl
take-append_length [] (y ∷ ys) = refl
take-append_length (x ∷ xs) ys = ap (λ (r : List ℕ). x ∷ r) (take-append_length xs ys)

length-kv_blocks :
    (sha : List ℕ → List ℕ) (ids : List ℕ) (len base size i n : ℕ)
    → length (kv_blocks sha ids len base size i n) ≡ n
unfolding kv_blocks
length-kv_blocks sha ids len base size i zero = refl
length-kv_blocks sha ids len base size i (suc n) =
    omega (arith, length-kv_blocks sha ids len base size (i + 1) n)

get-kv_blocks :
    (sha : List ℕ → List ℕ) (ids : List ℕ) (len base size i n k : ℕ)
    → k < n
    → let b = get_or (kv_blocks sha ids len base size i n) k no_block in
      (b.obj_key ≡ sha (take (prefix_end 128 len (i + k)) ids))
      × (b.vram_dest_addr ≡ add64 base (mul64 (i + k) size))
unfolding kv_blocks
get-kv_blocks sha ids len base size i zero k lt = absurd (omega arith)
get-kv_blocks sha ids len base size i (suc n) zero lt =
    let e : i ≡ i + 0 = omega arith in
    (
      ap (λ (j : ℕ). sha (take (prefix_end 128 len j) ids)) e,
      ap (λ (j : ℕ). add64 base (mul64 j size)) e,
    )
get-kv_blocks sha ids len base size i (suc n) (suc k) lt =
    let e : i + 1 + k ≡ i + suc k = omega arith in
    let (key, dest) = get-kv_blocks sha ids len base size (i + 1) n k (omega arith) in
    (
      key ∙ ap (λ (j : ℕ). sha (take (prefix_end 128 len j) ids)) e,
      dest ∙ ap (λ (j : ℕ). add64 base (mul64 j size)) e,
    )

-- The key of a block at whose end a prefix ends is that of the prefix.
key_of_shared :
    (sha : List ℕ → List ℕ) (shared ids : List ℕ) (base size i : ℕ)
    → length (shared ++ ids) < 2 ^ 31
    → i < 64
    → length shared ≡ 128 * (i + 1)
    → (block_at (build_kv_fetch sha (shared ++ ids) (length (shared ++ ids)) base size).1 i).obj_key
      ≡ sha shared
unfolding build_kv_fetch
key_of_shared sha shared ids base size i small lt whole =
    let len = length (shared ++ ids) in
    let sum : len ≡ length shared + length ids = length-append shared ids in
    let needed = blocks_for 128 len in
    let n : ℕ = if ltb max_blocks needed then max_blocks else needed in
    let inside : i < n = ground (arith, sum, whole, small, lt) in
    let end_of : prefix_end 128 len (0 + i) ≡ length shared =
      ground (arith, sum, whole, small, lt) in
    (get-kv_blocks sha (shared ++ ids) len base size 0 n i inside).0
    ∙ ap (λ (e : ℕ). sha (take e (shared ++ ids))) end_of
    ∙ ap sha (take-append_length shared ids)

-- For a sequence of fewer than 2 ^ 31 tokens and a destination of 64 blocks below 2 ^ 64, the wavefront
-- has as many blocks as 128 tokens each need, at most 64; block `i` has the key of the first
-- 128 * (i + 1) tokens, or of all if there are fewer, and goes to the `i`-th place of the
-- destination.
pub build_kv_fetch_lem :
    (sha : List ℕ → List ℕ) (ids : List ℕ) (base size : ℕ)
    → length ids < 2 ^ 31
    → base + 64 * size < 2 ^ 64
    → let (n, wf) = build_kv_fetch sha ids (length ids) base size in
      (n ≡ min 64 ((length ids + 127) / 128))
      × (length wf.blocks ≡ n)
      × ((i : ℕ)
          → i < n
          → ((block_at wf i).obj_key ≡ sha (take (min (128 * (i + 1)) (length ids)) ids))
            × ((block_at wf i).vram_dest_addr ≡ base + i * size))
unfolding build_kv_fetch
build_kv_fetch_lem sha ids base size small room =
    let len = length ids in
    let needed = blocks_for 128 len in
    let n : ℕ = if ltb max_blocks needed then max_blocks else needed in
    let count : n ≡ min 64 ((len + 127) / 128) = ground (arith, small) in
    let few : n ≤ 64 = ground arith in
    (
      count,
      length-kv_blocks sha ids len base size 0 n,
      λ i lt.
          let (key, dest) = get-kv_blocks sha ids len base size 0 n i lt in
          let end_of : prefix_end 128 len (0 + i) ≡ min (128 * (i + 1)) len =
            ground (arith, few, lt, small) in
          let below : i * size ≤ 64 * size =
            mul-le-mul_right {m = i} {n = 64} size (omega (arith, few, lt)) in
          let zero_sum : 0 + i ≡ i = omega arith in
          (
            key ∙ ap (λ (e : ℕ). sha (take e ids)) end_of,
            dest ∙ ap (λ (j : ℕ). add64 base (mul64 j size)) zero_sum ∙ omega (arith, below, room),
          ),
    )

-- Sequences that agree on the first 128 * (i + 1) tokens, and are at least that long, ask for block
-- `i` under the same key, wherever their blocks go. Block `i` is one of the first 64, and the
-- sequences are shorter than 2 ^ 31.
pub build_kv_fetch-shares :
    (sha : List ℕ → List ℕ) (shared ids jds : List ℕ) (base size base' size' i : ℕ)
    → length (shared ++ ids) < 2 ^ 31
    → length (shared ++ jds) < 2 ^ 31
    → i < 64
    → length shared ≡ 128 * (i + 1)
    → let a = build_kv_fetch sha (shared ++ ids) (length (shared ++ ids)) base size in
      let b = build_kv_fetch sha (shared ++ jds) (length (shared ++ jds)) base' size' in
      ((block_at a.1 i).obj_key ≡ sha shared) × ((block_at b.1 i).obj_key ≡ sha shared)
build_kv_fetch-shares sha shared ids jds base size base' size' i la lb lt whole = (
  key_of_shared sha shared ids base size i la lt whole,
  key_of_shared sha shared jds base' size' i lb lt whole,
)
