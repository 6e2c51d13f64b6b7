-- ===== src/Attention/Inside.antt =====
-- What `kllm_ace_attention` reads: the rows of the queries, the keys and the values.
use xpu_kllm.Prelude.{
  ℕ, ◌+◌, ◌-◌, ◌*◌, ◌^◌, ◌<◌, ◌≡◌, ap, ap₂, arith, List, ◌||◌, ◌==◌, some, if◌then◌else◌, Rc,
}
use xpu_kllm.Attention.{
  Floats, Vectors, Params, row, attention_scalar, attention_avx512_bf16, attention_amx_bf16,
  score_scalar, score_avx512, IsaLevel, isa_none, avx512_bf16, amx_bf16, ace_bf16, Build, kernel,
  ace_attention,
}
use xpu_kllm.Attention.Loops.{row_end, row_lem}
use xpu_kllm.Attention.Same.{Agree, heads_same, score_scalar_same, score_avx512_same}

-- No offset into the queries and the keys wraps round.
pub record Unwrapped {F : Type 0} (p : Params F) : Type 0 where
  pub wide : 0 < p.head_dim
  pub loops : p.head_dim < 2 ^ 32 - 32
  pub query_words : p.query_len * p.num_heads * p.head_dim < 2 ^ 32
  pub key_words : p.seq_len * p.num_heads * p.head_dim < 2 ^ 32

-- Two memories that agree on the first `n` elements.
abbrev pub Begin : (ℕ → ℕ) → (ℕ → ℕ) → ℕ → Type 0
Begin m m' n = (i : ℕ) → i < n → m i ≡ m' i

row-Agree :
    {F : Type 0} (p : Params F) (m m' : ℕ → ℕ) (n i h : ℕ)
    → 0 < p.head_dim
    → n * p.num_heads * p.head_dim < 2 ^ 32
    → i < n
    → h < p.num_heads
    → Begin m m' (n * p.num_heads * p.head_dim)
    → Agree m m' (row p i h) 0 p.head_dim
row-Agree p m m' n i h wide words li lh same e lo hi =
    same (row p i h + e)
      (omega (arith, hi, row_lem p n i h wide words li lh, row_end p n i h li lh))

module _ {F V : Type 0} (fl : Floats F) (vec : Vectors F V) (p : Params F) (u : Unwrapped p)
    (q q' k k' v v' : ℕ → ℕ) (queries : Begin q q' (p.query_len * p.num_heads * p.head_dim))
    (keys : Begin k k' (p.seq_len * p.num_heads * p.head_dim))
    (values : Begin v v' (p.seq_len * p.num_heads * p.head_dim)) (out : List ℕ) where
  scalar_inside : attention_scalar fl q k v out p ≡ attention_scalar fl q' k' v' out p
  unfolding attention_scalar
  scalar_inside =
      heads_same fl p v v' (score_scalar fl p q k) (score_scalar fl p q' k')
        (λ qi si h lq ls lh.
          score_scalar_same q q' k k' (row p qi h) (row p si h) fl p
            (row-Agree p q q' p.query_len qi h u.wide u.query_words lq lh queries)
            (row-Agree p k k' p.seq_len si h u.wide u.key_words ls lh keys))
        (λ si h ls lh. row-Agree p v v' p.seq_len si h u.wide u.key_words ls lh values) 0
        p.num_heads out (omega arith)

  avx512_inside :
      attention_avx512_bf16 fl vec q k v out p ≡ attention_avx512_bf16 fl vec q' k' v' out p
  unfolding attention_avx512_bf16
  avx512_inside =
      heads_same fl p v v' (score_avx512 fl vec p q k) (score_avx512 fl vec p q' k')
        (λ qi si h lq ls lh.
          score_avx512_same q q' k k' (row p qi h) (row p si h) fl vec p u.loops
            (row-Agree p q q' p.query_len qi h u.wide u.query_words lq lh queries)
            (row-Agree p k k' p.seq_len si h u.wide u.key_words ls lh keys))
        (λ si h ls lh. row-Agree p v v' p.seq_len si h u.wide u.key_words ls lh values) 0
        p.num_heads out (omega arith)

  kernel_inside :
      (build : Build) (level : IsaLevel)
      → kernel fl vec build level q k v out p ≡ kernel fl vec build level q' k' v' out p
  unfolding kernel attention_amx_bf16
  kernel_inside build isa_none = scalar_inside
  kernel_inside build avx512_bf16 =
      ap₂ (λ (x y : List ℕ). if build.avx512bf16 then x else y) avx512_inside scalar_inside
  kernel_inside build amx_bf16 =
      ap₂ (λ (x y : List ℕ). if build.amx_bf16 then (if build.avx512bf16 then x else y) else y)
        avx512_inside scalar_inside
  kernel_inside build ace_bf16 =
      ap₂ (λ (x y : List ℕ). if build.amx_bf16 then (if build.avx512bf16 then x else y) else y)
        avx512_inside scalar_inside

  -- On memories that agree on these rows the result is the same.
  pub ace_attention_inside :
      (build : Build) (level : IsaLevel)
      → ace_attention fl vec build level (some q) (some k) (some v) out p
        ≡ ace_attention fl vec build level (some q') (some k') (some v') out p
  unfolding ace_attention
  ace_attention_inside build level =
      ap
        (λ (o : List ℕ).
          if (p.head_dim == 0) || ((p.seq_len == 0) || (p.num_heads == 0))
          then (Rc.fail, out)
          else (Rc.ok, o))
        (kernel_inside build level)
