-- ===== src/Attention.antt =====
-- userspace/compute/ace_attention.c: scaled dot-product attention, scalar and with AVX-512, and the
-- choice between them. Floats are a type with the operations that the code uses, vectors of 16
-- floats a type with the intrinsics; an array that is read is the memory from its address on, the bits
-- of a bfloat16 by index, and the output is the list of its bits.
pub mod Same
pub mod Reference
pub mod Inside
pub mod Loops
pub mod Levels
pub mod Exact
pub mod Cells
use xpu_kllm.Prelude.{
  ℕ, zero, suc, ◌+◌, ◌-◌, ◌*◌, ◌/◌, ◌%◌, ◌^◌, Bool, true, false, ◌||◌, ◌&&◌, List, [], ◌∷◌, map,
  Option, none, some, set, leb, ◌==◌, if◌then◌else◌, Rc,
}
use xpu_kllm.Prelude.Words.{u32, add32}
use xpu_kllm.Bf16.{widen, narrow}

pub record Floats (F : Type 0) : Type 0 where
  pub of_bits : ℕ → F
  pub to_bits : F → ℕ
  pub zero_float : F
  pub neg_infinity : F
  pub add : F → F → F
  pub sub : F → F → F
  pub mul : F → F → F
  pub div : F → F → F
  pub exp : F → F
  pub gt : F → F → Bool

-- `_mm512_setzero_ps`, `_mm512_dpbf16_ps` on 32 pairs, and `_mm512_reduce_add_ps`.
pub record Vectors (F V : Type 0) : Type 0 where
  pub setzero : V
  pub dpbf16 : V → List ℕ → List ℕ → V
  pub reduce_add : V → F

pub record Params (F : Type 0) : Type 0 where
  pub num_heads : ℕ
  pub head_dim : ℕ
  pub seq_len : ℕ
  pub query_len : ℕ
  pub scale : F

-- `n` elements from `i` on, as a load reads them.
unfoldable pub loaded : (ℕ → ℕ) → ℕ → ℕ → List ℕ
loaded m i zero = []
loaded m i (suc n) = m i ∷ loaded m (i + 1) n

-- `(i * num_heads + h) * head_dim`, in uint32_t.
unfoldable pub row : {F : Type 0} → Params F → ℕ → ℕ → ℕ
row p i h = u32 (u32 (u32 (i * p.num_heads) + h) * p.head_dim)

module _ {F : Type 0} (fl : Floats F) where
  unfoldable pub bf16_to_f32 : ℕ → F
  unfolding widen
  bf16_to_f32 val = fl.of_bits (widen val)

  unfoldable pub f32_to_bf16 : F → ℕ
  unfolding narrow
  f32_to_bf16 val = narrow (fl.to_bits val)

  -- The loop of the dot product: `n` rounds at `d`, from the vectors at `a` and `b`.
  unfoldable pub dot_from : (ℕ → ℕ) → ℕ → (ℕ → ℕ) → ℕ → ℕ → ℕ → F → F
  unfolding bf16_to_f32
  dot_from q a k b d zero acc = acc
  dot_from q a k b d (suc n) acc =
      dot_from q a k b (d + 1) n
        (fl.add acc (fl.mul (bf16_to_f32 (q (a + d))) (bf16_to_f32 (k (b + d)))))

  unfoldable pub score_scalar : Params F → (ℕ → ℕ) → (ℕ → ℕ) → ℕ → ℕ → F
  unfolding dot_from
  score_scalar p q k a b = fl.mul (dot_from q a k b 0 p.head_dim fl.zero_float) p.scale

  -- The loop over the keys, `n` rounds from `si`: the scores and their maximum.
  unfoldable pub scores_from : (ℕ → F) → ℕ → ℕ → F → List F × F
  scores_from score si zero max_score = ([], max_score)
  scores_from score si (suc n) max_score =
      let x = score si in
      let (xs, m) = scores_from score (si + 1) n (if fl.gt x max_score then x else max_score) in
      (x ∷ xs, m)

  unfoldable pub sum_from : List F → F → F
  sum_from [] sum = sum
  sum_from (x ∷ xs) sum = sum_from xs (fl.add sum x)

  -- The three loops of the softmax.
  unfoldable pub softmax : List F → F → List F
  unfolding sum_from
  softmax scores max_score =
      let exps = map (λ x. fl.exp (fl.sub x max_score)) scores in
      map (λ x. fl.div x (sum_from exps fl.zero_float)) exps

  -- The weighted sum at `d` of the values of head `h`, from position `si`.
  unfoldable pub weigh_from : Params F → (ℕ → ℕ) → ℕ → ℕ → List F → ℕ → F → F
  unfolding row bf16_to_f32
  weigh_from p v h d [] si acc = acc
  weigh_from p v h d (w ∷ ws) si acc =
      weigh_from p v h d ws (si + 1) (fl.add acc (fl.mul w (bf16_to_f32 (v (row p si h + d)))))

  unfoldable pub weights : (ℕ → ℕ → F) → Params F → ℕ → ℕ → List F
  unfolding row scores_from softmax
  weights score p h qi =
      let (scores, max_score) =
        scores_from (λ si. score (row p qi h) (row p si h)) 0 p.seq_len fl.neg_infinity in
      softmax scores max_score

  -- The loops over `d`, over `qi` and over `h`.
  unfoldable pub write_from : Params F → (ℕ → ℕ) → List F → ℕ → ℕ → ℕ → ℕ → List ℕ → List ℕ
  unfolding weigh_from f32_to_bf16
  write_from p v ws h base d zero out = out
  write_from p v ws h base d (suc n) out =
      write_from p v ws h base (d + 1) n
        (set out (base + d) (f32_to_bf16 (weigh_from p v h d ws 0 fl.zero_float)))

  unfoldable pub queries_from : (ℕ → ℕ → F) → Params F → (ℕ → ℕ) → ℕ → ℕ → ℕ → List ℕ → List ℕ
  unfolding weights row write_from
  queries_from score p v h qi zero out = out
  queries_from score p v h qi (suc n) out =
      queries_from score p v h (qi + 1) n
        (write_from p v (weights score p h qi) h (row p qi h) 0 p.head_dim out)

  unfoldable pub heads_from : (ℕ → ℕ → F) → Params F → (ℕ → ℕ) → ℕ → ℕ → List ℕ → List ℕ
  unfolding queries_from
  heads_from score p v h zero out = out
  heads_from score p v h (suc n) out =
      heads_from score p v (h + 1) n (queries_from score p v h 0 p.query_len out)

  unfoldable pub attention_scalar : (ℕ → ℕ) → (ℕ → ℕ) → (ℕ → ℕ) → List ℕ → Params F → List ℕ
  unfolding heads_from score_scalar
  attention_scalar q k v output p = heads_from (score_scalar p q k) p v 0 p.num_heads output

module _ {F V : Type 0} (fl : Floats F) (vec : Vectors F V) where
  -- The loop in steps of 32 from `d`, in uint32_t, on fuel: the sum and where it stops.
  unfoldable pub chunks_from : ℕ → (ℕ → ℕ) → ℕ → (ℕ → ℕ) → ℕ → ℕ → ℕ → V → V × ℕ
  unfolding loaded
  chunks_from head_dim q a k b zero d acc = (acc, d)
  chunks_from head_dim q a k b (suc fuel) d acc =
      let rest =
        chunks_from head_dim q a k b fuel (add32 d 32)
          (vec.dpbf16 acc (loaded q (a + d) 32) (loaded k (b + d) 32)) in
      if leb (add32 d 32) head_dim then rest else (acc, d)

  -- The loop over the remainder, `n` rounds from `d`.
  unfoldable pub remainder_from : F → (ℕ → ℕ) → ℕ → (ℕ → ℕ) → ℕ → ℕ → ℕ → F → F
  unfolding bf16_to_f32
  remainder_from scale q a k b d zero acc = acc
  remainder_from scale q a k b d (suc n) acc =
      remainder_from scale q a k b (d + 1) n (
        fl.add acc
          (fl.mul (fl.mul (bf16_to_f32 fl (q (a + d))) (bf16_to_f32 fl (k (b + d)))) scale))

  -- For a head dimension below 2 ^ 32 - 32: from there on the sum `d + 32` wraps round to a number
  -- within the head, and the loop in steps of 32 has no end. Below, the fuel is enough.
  unfoldable pub score_avx512 : Params F → (ℕ → ℕ) → (ℕ → ℕ) → ℕ → ℕ → F
  unfolding chunks_from remainder_from
  score_avx512 p q k a b =
      let (acc, d) = chunks_from p.head_dim q a k b (p.head_dim / 32 + 1) 0 vec.setzero in
      remainder_from p.scale q a k b d (p.head_dim - d) (fl.mul (vec.reduce_add acc) p.scale)

  unfoldable pub attention_avx512_bf16 : (ℕ → ℕ) → (ℕ → ℕ) → (ℕ → ℕ) → List ℕ → Params F → List ℕ
  unfolding heads_from score_avx512
  attention_avx512_bf16 q k v output p = heads_from fl (score_avx512 p q k) p v 0 p.num_heads output

pub data IsaLevel : Type 0 where
  isa_none avx512_bf16 amx_bf16 ace_bf16 : IsaLevel

-- Whether the compiler defines __AVX512BF16__ and __AMX_BF16__.
pub record Build : Type 0 where
  pub avx512bf16 : Bool
  pub amx_bf16 : Bool

-- `kllm_ace_probe`: the level from EAX of CPUID 7.1 and EDX of CPUID 7.0.
unfoldable pub ace_probe : ℕ → ℕ → IsaLevel → IsaLevel
ace_probe eax edx level =
    let level' = if eax / 2 ^ 5 % 2 == 1 then avx512_bf16 else level in
    if edx / 2 ^ 22 % 2 == 1 then amx_bf16 else level'

module _ {F V : Type 0} (fl : Floats F) (vec : Vectors F V) (build : Build) where
  unfoldable pub attention_amx_bf16 : (ℕ → ℕ) → (ℕ → ℕ) → (ℕ → ℕ) → List ℕ → Params F → List ℕ
  unfolding attention_scalar attention_avx512_bf16
  attention_amx_bf16 q k v output p =
      if build.avx512bf16
      then attention_avx512_bf16 fl vec q k v output p
      else attention_scalar fl q k v output p

  -- The switch over the level, with the cases that are compiled.
  unfoldable pub kernel : IsaLevel → (ℕ → ℕ) → (ℕ → ℕ) → (ℕ → ℕ) → List ℕ → Params F → List ℕ
  unfolding attention_amx_bf16
  kernel level q k v output p =
      let amx =
        if build.amx_bf16
        then attention_amx_bf16 q k v output p
        else attention_scalar fl q k v output p in
      elim level [
        | isa_none ↦ attention_scalar fl q k v output p
        | avx512_bf16 ↦
            if build.avx512bf16
            then attention_avx512_bf16 fl vec q k v output p
            else attention_scalar fl q k v output p
        | amx_bf16 ↦ amx
        | ace_bf16 ↦ amx
      ]

  -- `kllm_ace_attention`. The scales are read nowhere.
  unfoldable pub ace_attention :
      IsaLevel → Option (ℕ → ℕ) → Option (ℕ → ℕ) → Option (ℕ → ℕ) → List ℕ → Params F → Rc × List ℕ
  unfolding kernel
  ace_attention level (some q) (some k) (some v) output p =
      if (p.head_dim == 0) || ((p.seq_len == 0) || (p.num_heads == 0))
      then (Rc.fail, output)
      else (Rc.ok, kernel level q k v output p)
  ace_attention level _ _ _ output p = (Rc.fail, output)
