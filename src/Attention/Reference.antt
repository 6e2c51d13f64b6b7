-- ===== src/Attention/Reference.antt =====
-- Scaled dot-product attention by its formula, and the loops of the kernels against it.
use xpu_kllm.Prelude.{
  ℕ, zero, suc, ◌+◌, ◌*◌, ◌^◌, ◌<◌, ◌≡◌, refl, ap, ap₂, ◌∙◌, arith, List, [], ◌∷◌, map,
  if◌then◌else◌,
}
use xpu_kllm.Attention.{
  Floats, Params, row, bf16_to_f32, f32_to_bf16, dot_from, scores_from, sum_from, softmax,
  weigh_from, weights, score_scalar,
}
use xpu_kllm.Attention.Loops.{cell, row_lem, result}

module _ {F : Type 0} (fl : Floats F) where
  -- f 0 + ... + f (n - 1), added up in this order.
  abbrev pub sum_to : ℕ → (ℕ → F) → F
  sum_to zero f = fl.zero_float
  sum_to (suc n) f = fl.add (sum_to n f) (f n)

  -- The greatest of f 0, ..., f (n - 1).
  abbrev pub max_to : ℕ → (ℕ → F) → F
  max_to zero f = fl.neg_infinity
  max_to (suc n) f = if fl.gt (f n) (max_to n f) then f n else max_to n f

  -- The softmax of the scores s 0, ..., s (n - 1), at `j`.
  abbrev pub softmax_at : ℕ → (ℕ → F) → ℕ → F
  softmax_at n s j =
      fl.div (fl.exp (fl.sub (s j) (max_to n s)))
        (sum_to n (λ i. fl.exp (fl.sub (s i) (max_to n s))))

  -- The scaled dot product of the query at `qi` and the key at `j`.
  abbrev pub score_at : Params F → (ℕ → ℕ) → (ℕ → ℕ) → ℕ → ℕ → ℕ → F
  score_at p q k h qi j =
      fl.mul
        (sum_to p.head_dim
          (λ e. fl.mul (bf16_to_f32 fl (q (cell p qi h e))) (bf16_to_f32 fl (k (cell p j h e)))))
        p.scale

  -- Element `d` of the output: the sum of the values weighted by the softmax of the scores.
  abbrev pub attention_at : Params F → (ℕ → ℕ) → (ℕ → ℕ) → (ℕ → ℕ) → ℕ → ℕ → ℕ → ℕ
  attention_at p q k v qi h d = f32_to_bf16 fl (
      sum_to p.seq_len (λ j.
        fl.mul (softmax_at p.seq_len (score_at p q k h qi) j) (bf16_to_f32 fl (v (cell p j h d)))))

  sum_same : (n : ℕ) (f g : ℕ → F) → ((j : ℕ) → j < n → f j ≡ g j) → sum_to n f ≡ sum_to n g
  sum_same zero f g h = refl
  sum_same (suc n) f g h =
      ap₂ fl.add (sum_same n f g (λ j lt. h j (omega arith))) (h n (omega arith))

  max_same : (n : ℕ) (f g : ℕ → F) → ((j : ℕ) → j < n → f j ≡ g j) → max_to n f ≡ max_to n g
  max_same zero f g h = refl
  max_same (suc n) f g h =
      ap₂ (λ (x m : F). if fl.gt x m then x else m) (h n (omega arith))
        (max_same n f g (λ j lt. h j (omega arith)))

  softmax_same :
      (n : ℕ) (f g : ℕ → F) (j : ℕ)
      → ((i : ℕ) → i < n → f i ≡ g i)
      → j < n
      → softmax_at n f j ≡ softmax_at n g j
  softmax_same n f g j h lt =
      let top = max_same n f g h in
      ap₂ fl.div (ap₂ (λ (x m : F). fl.exp (fl.sub x m)) (h j lt) top)
        (sum_same n _ _ (λ i li. ap₂ (λ (x m : F). fl.exp (fl.sub x m)) (h i li) top))

  tabulate : ℕ → ℕ → (ℕ → F) → List F
  tabulate i zero f = []
  tabulate i (suc n) f = f i ∷ tabulate (i + 1) n f

  map-tabulate :
      (g : F → F) (f : ℕ → F) (i n : ℕ) → map g (tabulate i n f) ≡ tabulate i n (λ j. g (f j))
  unfolding tabulate
  map-tabulate g f i zero = refl
  map-tabulate g f i (suc n) = ap (λ (r : List F). g (f i) ∷ r) (map-tabulate g f (i + 1) n)

  next_sum : (f : ℕ → F) (i : ℕ) (acc : F) → acc ≡ sum_to i f → fl.add acc (f i) ≡ sum_to (i + 1) f
  next_sum f i acc e =
      let next : suc i ≡ i + 1 = omega arith in
      ap (λ (x : F). fl.add x (f i)) e ∙ ap (λ (n : ℕ). sum_to n f) next

  no_more : {A : Type 0} (f : ℕ → A) (i : ℕ) → f i ≡ f (i + 0)
  no_more f i = let e : i ≡ i + 0 = omega arith in ap f e

  one_more : {A : Type 0} (f : ℕ → A) (i n : ℕ) → f (i + 1 + n) ≡ f (i + suc n)
  one_more f i n = let e : i + 1 + n ≡ i + suc n = omega arith in ap f e

  abbrev product : (ℕ → ℕ) → (ℕ → ℕ) → ℕ → ℕ → ℕ → F
  product q k a b e = fl.mul (bf16_to_f32 fl (q (a + e))) (bf16_to_f32 fl (k (b + e)))

  abbrev weighed : Params F → (ℕ → ℕ) → ℕ → ℕ → (ℕ → F) → ℕ → F
  weighed p v h d w j = fl.mul (w j) (bf16_to_f32 fl (v (row p j h + d)))

  -- A front-to-back loop that starts from the sum of what is before ends with the sum of all.
  dot_lem :
      (q k : ℕ → ℕ) (a b d n : ℕ) (acc : F)
      → acc ≡ sum_to d (product q k a b)
      → dot_from fl q a k b d n acc ≡ sum_to (d + n) (product q k a b)
  unfolding dot_from
  dot_lem q k a b d zero acc e = e ∙ no_more (λ n. sum_to n (product q k a b)) d
  dot_lem q k a b d (suc n) acc e =
      dot_lem q k a b (d + 1) n _ (next_sum (product q k a b) d acc e)
      ∙ one_more (λ n. sum_to n (product q k a b)) d n

  scores_lem :
      (s : ℕ → F) (i n : ℕ) (m : F)
      → m ≡ max_to i s
      → scores_from fl s i n m ≡ (tabulate i n s, max_to (i + n) s)
  unfolding scores_from tabulate
  scores_lem s i zero m e = ap (λ (x : F). ([], x)) (e ∙ no_more (λ n. max_to n s) i)
  scores_lem s i (suc n) m e =
      let next : suc i ≡ i + 1 = omega arith in
      let top = if fl.gt (s i) m then s i else m in
      let here : top ≡ max_to (i + 1) s =
        ap (λ (x : F). if fl.gt (s i) x then s i else x) e ∙ ap (λ (j : ℕ). max_to j s) next in
      ap (λ (r : List F × F). (s i ∷ r.0, r.1)) (scores_lem s (i + 1) n top here)
      ∙ ap (λ (x : F). (s i ∷ tabulate (i + 1) n s, x)) (one_more (λ n. max_to n s) i n)

  sum_lem :
      (f : ℕ → F) (i n : ℕ) (acc : F)
      → acc ≡ sum_to i f
      → sum_from fl (tabulate i n f) acc ≡ sum_to (i + n) f
  unfolding sum_from tabulate
  sum_lem f i zero acc e = e ∙ no_more (λ n. sum_to n f) i
  sum_lem f i (suc n) acc e =
      sum_lem f (i + 1) n _ (next_sum f i acc e) ∙ one_more (λ n. sum_to n f) i n

  weigh_lem :
      (p : Params F) (v : ℕ → ℕ) (h d : ℕ) (w : ℕ → F) (i n : ℕ) (acc : F)
      → acc ≡ sum_to i (weighed p v h d w)
      → weigh_from fl p v h d (tabulate i n w) i acc ≡ sum_to (i + n) (weighed p v h d w)
  unfolding weigh_from tabulate
  weigh_lem p v h d w i zero acc e = e ∙ no_more (λ n. sum_to n (weighed p v h d w)) i
  weigh_lem p v h d w i (suc n) acc e =
      weigh_lem p v h d w (i + 1) n _ (next_sum (weighed p v h d w) i acc e)
      ∙ one_more (λ n. sum_to n (weighed p v h d w)) i n

  softmax_lem :
      (s : ℕ → F) (n : ℕ) → softmax fl (tabulate 0 n s) (max_to n s) ≡ tabulate 0 n (softmax_at n s)
  unfolding softmax
  softmax_lem s n =
      let e = λ (j : ℕ). fl.exp (fl.sub (s j) (max_to n s)) in
      let none_before : 0 + n ≡ n = omega arith in
      ap (λ (xs : List F). map (λ x. fl.div x (sum_from fl xs fl.zero_float)) xs)
        (map-tabulate (λ x. fl.exp (fl.sub x (max_to n s))) s 0 n)
      ∙ ap (λ (t : F). map (λ x. fl.div x t) (tabulate 0 n e))
          (sum_lem e 0 n fl.zero_float refl ∙ ap (λ (j : ℕ). sum_to j e) none_before)
      ∙ map-tabulate (λ x. fl.div x (sum_to n e)) e 0 n

  weights_lem :
      (score : ℕ → ℕ → F) (p : Params F) (h qi : ℕ)
      → weights fl score p h qi
        ≡ tabulate 0 p.seq_len (softmax_at p.seq_len (λ j. score (row p qi h) (row p j h)))
  unfolding weights
  weights_lem score p h qi =
      let s = λ (j : ℕ). score (row p qi h) (row p j h) in
      let none_before : 0 + p.seq_len ≡ p.seq_len = omega arith in
      ap (λ (r : List F × F). softmax fl r.0 r.1)
        (scores_lem s 0 p.seq_len fl.neg_infinity refl
          ∙ ap (λ (n : ℕ). (tabulate 0 p.seq_len s, max_to n s)) none_before)
      ∙ softmax_lem s p.seq_len

  -- What the scalar kernel writes is the formula, if no offset wraps round.
  pub result_lem :
      (p : Params F) (q k v : ℕ → ℕ) (h qi d : ℕ)
      → 0 < p.head_dim
      → p.query_len * p.num_heads * p.head_dim < 2 ^ 32
      → p.seq_len * p.num_heads * p.head_dim < 2 ^ 32
      → qi < p.query_len
      → h < p.num_heads
      → result fl p v (score_scalar fl p q k) h qi d ≡ attention_at p q k v qi h d
  unfolding result score_scalar
  result_lem p q k v h qi d wide words key_words lq lh =
      let n = p.seq_len in
      let s = λ (j : ℕ). score_scalar fl p q k (row p qi h) (row p j h) in
      let at_q = row_lem p p.query_len qi h wide words lq lh in
      let at_k : (j : ℕ) → j < n → row p j h ≡ (j * p.num_heads + h) * p.head_dim =
        λ j lt. row_lem p n j h wide key_words lt lh in
      let none_before : 0 + n ≡ n = omega arith in
      let no_element : 0 + p.head_dim ≡ p.head_dim = omega arith in
      let scores : (j : ℕ) → j < n → s j ≡ score_at p q k h qi j = λ j lt.
        ap (λ (x : F). fl.mul x p.scale)
          (dot_lem q k (row p qi h) (row p j h) 0 p.head_dim fl.zero_float refl
            ∙ ap (λ (m : ℕ). sum_to m (product q k (row p qi h) (row p j h))) no_element
            ∙ sum_same p.head_dim _ _ (λ e le.
              ap₂ (λ (x y : ℕ). fl.mul (bf16_to_f32 fl (q (x + e))) (bf16_to_f32 fl (k (y + e))))
                at_q (at_k j lt))) in
      ap (f32_to_bf16 fl) (
        ap (λ (ws : List F). weigh_from fl p v h d ws 0 fl.zero_float)
          (weights_lem (score_scalar fl p q k) p h qi)
        ∙ weigh_lem p v h d (softmax_at n s) 0 n fl.zero_float refl
        ∙ ap (λ (m : ℕ). sum_to m (weighed p v h d (softmax_at n s))) none_before
        ∙ sum_same n _ _ (λ j lt.
          ap₂ (λ (w : F) (x : ℕ). fl.mul w (bf16_to_f32 fl (v (x + d))))
            (softmax_same n s (score_at p q k h qi) j scores lt) (at_k j lt)))
