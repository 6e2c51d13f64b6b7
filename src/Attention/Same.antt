-- ===== src/Attention/Same.antt =====
-- The attention kernels on two memories: they compute the same if the elements they read are the same.
use xpu_kllm.Prelude.{
  ℕ, zero, suc, ◌+◌, ◌-◌, ◌/◌, ◌^◌, ◌≤◌, ◌<◌, ◌≡◌, refl, ap, ap₂, ◌∙◌, arith, List, [], ◌∷◌, map,
  length, inl, inr, Bool-cases, leb, set, subst, if◌then◌else◌,
}
use xpu_kllm.Prelude.Words.{add32}
use xpu_kllm.Attention.{
  Floats, Vectors, Params, loaded, row, bf16_to_f32, f32_to_bf16, dot_from, scores_from, softmax,
  weigh_from, weights, write_from, queries_from, heads_from, score_scalar, chunks_from,
  remainder_from, score_avx512,
}

-- Two memories that agree from `lo` on and below `hi`.
abbrev pub Agree : (ℕ → ℕ) → (ℕ → ℕ) → ℕ → ℕ → ℕ → Type 0
Agree m m' base lo hi = (e : ℕ) → lo ≤ e → e < hi → m (base + e) ≡ m' (base + e)

loaded_same :
    (m m' : ℕ → ℕ) (i n : ℕ)
    → ((e : ℕ) → i ≤ e → e < i + n → m e ≡ m' e)
    → loaded m i n ≡ loaded m' i n
unfolding loaded
loaded_same m m' i zero h = refl
loaded_same m m' i (suc n) h =
    ap₂ ◌∷◌ (h i (omega arith) (omega arith))
      (loaded_same m m' (i + 1) n (λ e le lt. h e (omega arith) (omega arith)))

length-map : {A B : Type 0} (f : A → B) (xs : List A) → length (map f xs) ≡ length xs
length-map f [] = refl
length-map f (x ∷ xs) = omega (arith, length-map f xs)

scores_same :
    {F : Type 0} (fl : Floats F) (f g : ℕ → F) (si n : ℕ) (m : F)
    → ((i : ℕ) → si ≤ i → i < si + n → f i ≡ g i)
    → scores_from fl f si n m ≡ scores_from fl g si n m
unfolding scores_from
scores_same fl f g si zero m h = refl
scores_same fl f g si (suc n) m h =
    let first : f si ≡ g si = h si (omega arith) (omega arith) in
    ap₂ (λ (x : _) (r : _). (x ∷ r.0, r.1)) first
      (scores_same fl f g (si + 1) n (if fl.gt (f si) m then f si else m)
          (λ i le lt. h i (omega arith) (omega arith))
        ∙ ap (λ (x : _). scores_from fl g (si + 1) n (if fl.gt x m then x else m)) first)

length-scores :
    {F : Type 0} (fl : Floats F) (f : ℕ → F) (si n : ℕ) (m : F)
    → length (scores_from fl f si n m).0 ≡ n
unfolding scores_from
length-scores fl f si zero m = refl
length-scores fl f si (suc n) m =
    omega (arith, length-scores fl f (si + 1) n (if fl.gt (f si) m then f si else m))

module _ {F : Type 0} (fl : Floats F) (p : Params F) (v v' : ℕ → ℕ) (f g : ℕ → ℕ → F)
    (same : (qi si h : ℕ)
      → qi < p.query_len
      → si < p.seq_len
      → h < p.num_heads
      → f (row p qi h) (row p si h) ≡ g (row p qi h) (row p si h))
    (values : (si h : ℕ)
      → si < p.seq_len
      → h < p.num_heads
      → Agree v v' (row p si h) 0 p.head_dim) where
  weights_same :
      (h qi : ℕ) → h < p.num_heads → qi < p.query_len → weights fl f p h qi ≡ weights fl g p h qi
  unfolding weights
  weights_same h qi lh lq =
      ap (λ (r : List F × F). softmax fl r.0 r.1)
        (scores_same fl _ _ 0 p.seq_len fl.neg_infinity
          (λ si le lt. same qi si h lq (omega arith) lh))

  length-weights : (h qi : ℕ) → length (weights fl g p h qi) ≡ p.seq_len
  unfolding weights softmax
  length-weights h qi =
      length-map _ (map _ _)
      ∙ length-map _ _
      ∙ length-scores fl (λ si. g (row p qi h) (row p si h)) 0 p.seq_len fl.neg_infinity

  weigh_same :
      (h d : ℕ) (ws : List F) (si : ℕ) (acc : F)
      → h < p.num_heads
      → d < p.head_dim
      → si + length ws ≤ p.seq_len
      → weigh_from fl p v h d ws si acc ≡ weigh_from fl p v' h d ws si acc
  unfolding weigh_from
  weigh_same h d [] si acc lh ld le = refl
  weigh_same h d (w ∷ ws) si acc lh ld le =
      ap (λ (x : ℕ). weigh_from fl p v h d ws (si + 1) (fl.add acc (fl.mul w (bf16_to_f32 fl x))))
        (values si h (omega arith) lh d (omega arith) ld)
      ∙ weigh_same h d ws (si + 1) _ lh ld (omega arith)

  write_same :
      (h base d n : ℕ) (ws : List F) (out : List ℕ)
      → h < p.num_heads
      → d + n ≤ p.head_dim
      → length ws ≤ p.seq_len
      → write_from fl p v ws h base d n out ≡ write_from fl p v' ws h base d n out
  unfolding write_from
  write_same h base d zero ws out lh le lw = refl
  write_same h base d (suc n) ws out lh le lw =
      write_same h base (d + 1) n ws _ lh (omega arith) lw
      ∙ ap
          (λ (x : F).
            write_from fl p v' ws h base (d + 1) n (set out (base + d) (f32_to_bf16 fl x)))
          (weigh_same h d ws 0 fl.zero_float lh (omega arith) (omega arith))

  queries_same :
      (h qi n : ℕ) (out : List ℕ)
      → h < p.num_heads
      → qi + n ≤ p.query_len
      → queries_from fl f p v h qi n out ≡ queries_from fl g p v' h qi n out
  unfolding queries_from
  queries_same h qi zero out lh le = refl
  queries_same h qi (suc n) out lh le =
      queries_same h (qi + 1) n _ lh (omega arith)
      ∙ ap (queries_from fl g p v' h (qi + 1) n) (
          ap (λ (ws : List F). write_from fl p v ws h (row p qi h) 0 p.head_dim out)
            (weights_same h qi lh (omega arith))
          ∙ write_same h (row p qi h) 0 p.head_dim (weights fl g p h qi) out lh (omega arith)
              (omega (arith, length-weights h qi)))

  pub heads_same :
      (h n : ℕ) (out : List ℕ)
      → h + n ≤ p.num_heads
      → heads_from fl f p v h n out ≡ heads_from fl g p v' h n out
  unfolding heads_from
  heads_same h zero out le = refl
  heads_same h (suc n) out le =
      heads_same (h + 1) n _ (omega arith)
      ∙ ap (heads_from fl g p v' (h + 1) n)
          (queries_same h 0 p.query_len out (omega arith) (omega arith))

module _ (q q' k k' : ℕ → ℕ) (a b : ℕ) where
  dot_same :
      {F : Type 0} (fl : Floats F) (d n : ℕ) (acc : F)
      → Agree q q' a d (d + n)
      → Agree k k' b d (d + n)
      → dot_from fl q a k b d n acc ≡ dot_from fl q' a k' b d n acc
  unfolding dot_from
  dot_same fl d zero acc hq hk = refl
  dot_same fl d (suc n) acc hq hk =
      ap₂
        (λ (x y : ℕ).
          dot_from fl q a k b (d + 1) n (fl.add acc (fl.mul (bf16_to_f32 fl x) (bf16_to_f32 fl y))))
        (hq d (omega arith) (omega arith)) (hk d (omega arith) (omega arith))
      ∙ dot_same fl (d + 1) n _ (λ e le lt. hq e (omega arith) (omega arith))
          (λ e le lt. hk e (omega arith) (omega arith))

  remainder_same :
      {F V : Type 0} (fl : Floats F) (vec : Vectors F V) (s : F) (d n : ℕ) (acc : F)
      → Agree q q' a d (d + n)
      → Agree k k' b d (d + n)
      → remainder_from fl vec s q a k b d n acc ≡ remainder_from fl vec s q' a k' b d n acc
  unfolding remainder_from
  remainder_same fl vec s d zero acc hq hk = refl
  remainder_same fl vec s d (suc n) acc hq hk =
      ap₂
        (λ (x y : ℕ).
          remainder_from fl vec s q a k b (d + 1) n
            (fl.add acc (fl.mul (fl.mul (bf16_to_f32 fl x) (bf16_to_f32 fl y)) s)))
        (hq d (omega arith) (omega arith)) (hk d (omega arith) (omega arith))
      ∙ remainder_same fl vec s (d + 1) n _ (λ e le lt. hq e (omega arith) (omega arith))
          (λ e le lt. hk e (omega arith) (omega arith))

  slice_same :
      (m m' : ℕ → ℕ) (base d n : ℕ)
      → Agree m m' base d (d + n)
      → loaded m (base + d) n ≡ loaded m' (base + d) n
  slice_same m m' base d n h = loaded_same m m' (base + d) n (λ e le lt.
      let there : base + (e - base) ≡ e = omega (arith, le) in
      subst (λ (x : ℕ). m x ≡ m' x) there
        (h (e - base) (omega (arith, le)) (omega (arith, le, lt))))

  chunks_same :
      {F V : Type 0} (fl : Floats F) (vec : Vectors F V) (head_dim fuel d : ℕ) (acc : V)
      → head_dim < 2 ^ 32 - 32
      → d ≤ head_dim
      → Agree q q' a 0 head_dim
      → Agree k k' b 0 head_dim
      → chunks_from fl vec head_dim q a k b fuel d acc
        ≡ chunks_from fl vec head_dim q' a k' b fuel d acc
  unfolding chunks_from
  chunks_same fl vec head_dim zero d acc small le hq hk = refl
  chunks_same fl vec head_dim (suc fuel) d acc small le hq hk =
      elim (Bool-cases (leb (add32 d 32) head_dim)) [
        | inr stop ↦ rw stop refl
        | inl more ↦
            let inside : d + 32 ≤ head_dim = ground arith in
            let next : add32 d 32 ≤ head_dim = omega (arith, inside, small) in
            rw more (
              ap₂
                (λ (x y : List ℕ).
                  chunks_from fl vec head_dim q a k b fuel (add32 d 32) (vec.dpbf16 acc x y))
                (slice_same q q' a d 32 (λ e lo hi. hq e (omega arith) (omega (arith, inside, hi))))
                (slice_same k k' b d 32 (λ e lo hi. hk e (omega arith) (omega (arith, inside, hi))))
              ∙ chunks_same fl vec head_dim fuel (add32 d 32) _ small next hq hk)
      ]

  pub score_scalar_same :
      {F : Type 0} (fl : Floats F) (p : Params F)
      → Agree q q' a 0 p.head_dim
      → Agree k k' b 0 p.head_dim
      → score_scalar fl p q k a b ≡ score_scalar fl p q' k' a b
  unfolding score_scalar
  score_scalar_same fl p hq hk =
      ap (λ (x : _). fl.mul x p.scale)
        (dot_same fl 0 p.head_dim fl.zero_float (λ e lo hi. hq e lo (omega (arith, hi)))
          (λ e lo hi. hk e lo (omega (arith, hi))))

  pub score_avx512_same :
      {F V : Type 0} (fl : Floats F) (vec : Vectors F V) (p : Params F)
      → p.head_dim < 2 ^ 32 - 32
      → Agree q q' a 0 p.head_dim
      → Agree k k' b 0 p.head_dim
      → score_avx512 fl vec p q k a b ≡ score_avx512 fl vec p q' k' a b
  unfolding score_avx512
  score_avx512_same fl vec p small hq hk =
      let end = chunks_from fl vec p.head_dim q' a k' b (p.head_dim / 32 + 1) 0 vec.setzero in
      ap
        (λ (r : _).
          remainder_from fl vec p.scale q a k b r.1 (p.head_dim - r.1)
            (fl.mul (vec.reduce_add r.0) p.scale))
        (chunks_same fl vec p.head_dim (p.head_dim / 32 + 1) 0 vec.setzero small (omega arith) hq
          hk)
      ∙ remainder_same fl vec p.scale end.1 (p.head_dim - end.1) _
          (λ e lo hi. hq e (omega arith) (omega (arith, lo, hi)))
          (λ e lo hi. hk e (omega arith) (omega (arith, lo, hi)))
