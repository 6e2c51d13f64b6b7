-- ===== src/Attention/Levels.antt =====
-- `kllm_ace_attention` on every level of the instruction set.
use xpu_kllm.Prelude.{
  ℕ, ◌+◌, ◌*◌, ◌%◌, ◌^◌, ◌≤◌, ◌<◌, ◌≡◌, refl, ap, arith, Bool, true, false, List, some,
  if◌then◌else◌, ==_of_ne, Rc,
}
use xpu_kllm.Attention.{
  Floats, Vectors, Params, row, score_scalar, score_avx512, attention_scalar, attention_avx512_bf16,
  attention_amx_bf16, IsaLevel, isa_none, avx512_bf16, amx_bf16, ace_bf16, Build, kernel,
  ace_attention,
}
use xpu_kllm.Attention.Loops.{row_end, row_lem}
use xpu_kllm.Attention.Same.{heads_same}
use xpu_kllm.Attention.Inside.{Unwrapped}
use xpu_kllm.Attention.Exact.{Naturals, IsNatural, row_dot, score_avx512_lem}

either : {A : Type 0} {x y : A} (b : Bool) → x ≡ y → (if b then x else y) ≡ y
either true e = e
either false e = refl

module _ {F V : Type 0} (fl : Floats F) (vec : Vectors F V) (nat : Naturals fl vec) (p : Params F)
    (q k : ℕ → ℕ) where
  -- The queries and the keys are natural numbers, and so small that no dot product of a query and a
  -- key of a head exceeds 2 ^ 24.
  pub record IsSmall : Type 0 where
    pub queries : (i : ℕ) → i < p.query_len * p.num_heads * p.head_dim → IsNatural fl vec nat (q i)
    pub keys : (i : ℕ) → i < p.seq_len * p.num_heads * p.head_dim → IsNatural fl vec nat (k i)
    pub dots :
        (qi si h : ℕ)
        → qi < p.query_len
        → si < p.seq_len
        → h < p.num_heads
        → row_dot fl vec nat q (row p qi h) k (row p si h) 0 p.head_dim ≤ 2 ^ 24

  module _ (u : Unwrapped p) (whole : p.head_dim % 32 ≡ 0) (small : IsSmall) (v : ℕ → ℕ)
      (out : List ℕ) where
    row_inside :
        (n i h e : ℕ)
        → n * p.num_heads * p.head_dim < 2 ^ 32
        → i < n
        → h < p.num_heads
        → e < p.head_dim
        → row p i h + e < n * p.num_heads * p.head_dim
    row_inside n i h e words li lh le =
        omega (arith, row_lem p n i h u.wide words li lh, row_end p n i h li lh, le)

    avx512_same : attention_avx512_bf16 fl vec q k v out p ≡ attention_scalar fl q k v out p
    unfolding attention_avx512_bf16 attention_scalar
    avx512_same =
        heads_same fl p v v (score_avx512 fl vec p q k) (score_scalar fl p q k)
          (λ qi si h lq ls lh.
            score_avx512_lem fl vec nat p q k (row p qi h) (row p si h) u.loops whole
              (λ e le.
                small.queries (row p qi h + e)
                  (row_inside p.query_len qi h e u.query_words lq lh le))
              (λ e le.
                small.keys (row p si h + e) (row_inside p.seq_len si h e u.key_words ls lh le))
              (small.dots qi si h lq ls lh))
          (λ si h ls lh e lo hi. refl) 0 p.num_heads out (omega arith)

    amx_same :
        (build : Build)
        → (if build.amx_bf16
            then attention_amx_bf16 fl vec build q k v out p
            else attention_scalar fl q k v out p)
          ≡ attention_scalar fl q k v out p
    unfolding attention_amx_bf16
    amx_same build = either build.amx_bf16 (either build.avx512bf16 avx512_same)

    pub kernel_same :
        (build : Build) (level : IsaLevel)
        → kernel fl vec build level q k v out p ≡ attention_scalar fl q k v out p
    unfolding kernel attention_amx_bf16
    kernel_same build isa_none = refl
    kernel_same build avx512_bf16 = either build.avx512bf16 avx512_same
    kernel_same build amx_bf16 = amx_same build
    kernel_same build ace_bf16 = amx_same build

-- `kllm_ace_attention` succeeds on every build and every level of the instruction set with the
-- output of the scalar kernel, bit for bit the same on all of them, when its arithmetic up to the
-- scores is exact: for queries and keys that are natural numbers with dot products up to 2 ^ 24, and
-- heads of a multiple of 32 elements, fewer than 2 ^ 32 - 32. The numbers of heads, of keys and of
-- elements of a head are not 0, and no offset into queries and keys wraps round.
pub ace_attention_lem :
    {F V : Type 0} (fl : Floats F) (vec : Vectors F V) (nat : Naturals fl vec) (build : Build)
    (level : IsaLevel) (p : Params F) (q k v : ℕ → ℕ) (out : List ℕ)
    → Unwrapped p
    → p.head_dim % 32 ≡ 0
    → IsSmall fl vec nat p q k
    → 0 < p.seq_len
    → 0 < p.num_heads
    → ace_attention fl vec build level (some q) (some k) (some v) out p
      ≡ (Rc.ok, attention_scalar fl q k v out p)
unfolding ace_attention
ace_attention_lem fl vec nat build level p q k v out u whole small keys heads =
    rw
      (
        ==_of_ne p.head_dim 0 (omega (arith, u.wide)),
        ==_of_ne p.seq_len 0 (omega arith),
        ==_of_ne p.num_heads 0 (omega arith),
      )
      (ap (λ (o : List ℕ). (Rc.ok, o))
        (kernel_same fl vec nat p q k u whole small v out build level))
