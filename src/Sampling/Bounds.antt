-- ===== src/Sampling/Bounds.antt =====
-- The chosen token is one of the vocabulary, however the floats behave.
use xpu_kllm.Prelude.{
  ℕ, zero, suc, ◌+◌, ◌-◌, ◌^◌, ◌≤◌, ◌<◌, ◌≡◌, refl, arith, inl, inr, Bool-cases, ◌||◌, List, [],
  ◌∷◌, map, length, set, every-set, replicate, leb, ◌==◌, if◌then◌else◌,
}
use xpu_kllm.Prelude.Words.{sub32}
use xpu_kllm.Sampling.{
  Floats, Params, Chance, Method, greedy, top_k, top_p, temperature, unknown, greedy_from,
  sample_greedy, max_logit, sum_of, pick_from, sample_temperature, top_start, top_at, exchange,
  bubble_up, top_step, top_from, sample_top_k, sample_top_p, sample_token,
}

length-map : {A B : Type 0} (f : A → B) (xs : List A) → length (map f xs) ≡ length xs
length-map f [] = refl
length-map f (x ∷ xs) = omega (arith, length-map f xs)

module _ {F : Type 0} (fl : Floats F) where
  greedy_from-lt :
      (xs : List F) (i n : ℕ) (m : F) (best : ℕ)
      → i + length xs ≤ n
      → best < n
      → greedy_from fl xs i m best < n
  unfolding greedy_from
  greedy_from-lt [] i n m best le lt = lt
  greedy_from-lt (x ∷ xs) i n m best le lt =
      greedy_from-lt xs (i + 1) n (if fl.gt x m then x else m) (if fl.gt x m then i else best)
        (omega arith) (ground (arith, le, lt))

  sample_greedy-lt : (logits : List F) → 0 < length logits → sample_greedy fl logits < length logits
  unfolding sample_greedy
  sample_greedy-lt logits h =
      greedy_from-lt logits 0 (length logits) fl.neg_infinity 0 (omega arith) h

  pick_from-lt :
      (ps : List F) (i n : ℕ) (c r : F) (token : ℕ)
      → i + length ps ≤ n
      → token < n
      → pick_from fl ps i c r token < n
  unfolding pick_from
  pick_from-lt [] i n c r token le lt = lt
  pick_from-lt (p ∷ ps) i n c r token le lt =
      ground (arith, pick_from-lt ps (i + 1) n (fl.add c p) r token (omega arith) lt)

  sample_temperature-lt :
      (luck : Chance F) (logits : List F) (t : F)
      → 0 < length logits
      → length logits < 2 ^ 32
      → sample_temperature fl luck logits t < length logits
  unfolding sample_temperature
  sample_temperature-lt luck logits t h small =
      let g : sample_greedy fl logits < length logits = sample_greedy-lt logits h in
      let weights =
        map (λ (x : F). fl.exp (fl.div (fl.sub x (max_logit fl logits fl.neg_infinity)) t))
          logits in
      let divided = λ (w : F). fl.div w (sum_of fl weights fl.zero_float) in
      let fits : 0 + length (map divided weights) ≤ length logits = omega (
        arith,
        length-map divided weights,
        length-map (λ (x : F). fl.exp (fl.div (fl.sub x (max_logit fl logits fl.neg_infinity)) t))
            logits,
      ) in
      let p : pick_from fl (map divided weights) 0 fl.zero_float luck.draw (sub32 (length logits) 1)
          < length logits =
        pick_from-lt (map divided weights) 0 (length logits) fl.zero_float luck.draw
          (sub32 (length logits) 1) fits (omega (arith, small)) in
      elim (Bool-cases (fl.le t fl.zero_float)) [
        | inl cold ↦ rw cold g
        | inr warm ↦ elim (Bool-cases luck.probs_fit) [
          | inl room ↦ rw (warm, room) p
          | inr full ↦ rw (warm, full) g
        ]
      ]

  -- Positions below `n` at every place.
  abbrev AllBelow : ℕ → List (F × ℕ) → Type 0
  AllBelow n top = (j : ℕ) → (top_at fl top j).1 < n

  exchange_below :
      (n : ℕ) (top : List (F × ℕ)) (j : ℕ) → AllBelow n top → AllBelow n (exchange fl top j)
  exchange_below n top j h =
      let Below = λ (p : F × ℕ). p.1 < n in
      every-set Below (top_start fl) (set top j (top_at fl top (j + 1))) (j + 1) (top_at fl top j)
        (every-set Below (top_start fl) top j (top_at fl top (j + 1)) h (h (j + 1))) (h j)

  bubble_up_below :
      (n j : ℕ) (top : List (F × ℕ)) → AllBelow n top → AllBelow n (bubble_up fl top j)
  unfolding bubble_up
  bubble_up_below n zero top h = h
  bubble_up_below n (suc j) top h =
      elim (Bool-cases (fl.gt (top_at fl top (j + 1)).0 (top_at fl top j).0)) [
        | inl up ↦ rw up (bubble_up_below n j (exchange fl top j) (exchange_below n top j h))
        | inr stay ↦ rw stay (bubble_up_below n j top h)
      ]

  top_step_below :
      (k n : ℕ) (top : List (F × ℕ)) (x : F) (i : ℕ)
      → i < n
      → AllBelow n top
      → AllBelow n (top_step fl k top x i)
  unfolding top_step
  top_step_below k n top x i lt h = elim (Bool-cases (fl.gt x (top_at fl top (k - 1)).0)) [
    | inl better ↦ rw better (
        bubble_up_below n (k - 1) (set top (k - 1) (x, i))
          (every-set (λ (p : F × ℕ). p.1 < n) (top_start fl) top (k - 1) (x, i) h lt))
    | inr worse ↦ rw worse h
  ]

  top_from_below :
      (k n : ℕ) (xs : List F) (i : ℕ) (top : List (F × ℕ))
      → i + length xs ≤ n
      → AllBelow n top
      → AllBelow n (top_from fl k xs i top)
  unfolding top_from
  top_from_below k n [] i top le h = h
  top_from_below k n (x ∷ xs) i top le h =
      top_from_below k n xs (i + 1) (top_step fl k top x i) (omega arith)
        (top_step_below k n top x i (omega arith) h)

  starts_below : (n k : ℕ) → 0 < n → AllBelow n (replicate k (top_start fl))
  starts_below n zero h j = h
  starts_below n (suc k) h zero = h
  starts_below n (suc k) h (suc j) = starts_below n k h j

  sample_top_k-lt :
      (luck : Chance F) (logits : List F) (k : ℕ) (t : F)
      → 0 < length logits
      → length logits < 2 ^ 32
      → sample_top_k fl luck logits k t < length logits
  unfolding sample_top_k
  sample_top_k-lt luck logits k t h small =
      let n = length logits in
      let top = top_from fl k logits 0 (replicate k (top_start fl)) in
      let below : AllBelow n top =
        top_from_below k n logits 0 (replicate k (top_start fl)) (omega arith)
          (starts_below n k h) in
      elim (Bool-cases ((k == 0) || leb n k)) [
        | inl whole ↦ rw whole (sample_temperature-lt luck logits t h small)
        | inr part ↦ elim (Bool-cases luck.tops_fit) [
          | inl room ↦ rw (part, room) (below _)
          | inr full ↦ rw (part, full) (sample_greedy-lt logits h)
        ]
      ]

  -- With any sampling method, whatever the floats and the buffers do, the token is one of the
  -- vocabulary, if that is not empty and has fewer than 2 ^ 32 tokens.
  pub sample_token-lt :
      (luck : Chance F) (logits : List F) (params : Params F)
      → 0 < length logits
      → length logits < 2 ^ 32
      → sample_token fl luck logits params < length logits
  unfolding sample_token sample_top_p
  sample_token-lt luck logits params h small =
      elim params.sampling
        as (λ (m : Method).
          sample_token fl luck logits (record params { sampling = m }) < length logits) [
            | greedy ↦ sample_greedy-lt logits h
            | top_k ↦ sample_top_k-lt luck logits params.top_k params.temperature h small
            | top_p ↦ sample_temperature-lt luck logits params.temperature h small
            | temperature ↦ sample_temperature-lt luck logits params.temperature h small
            | unknown ↦ sample_greedy-lt logits h
          ]
