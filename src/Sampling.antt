-- ===== src/Sampling.antt =====
-- userspace/decode/decode_loop.c: the choice of the next token from the logits. Floats are a type
-- with the operations that the code uses; an array with its length is one list.
pub mod Argmax
pub mod Bounds
use xpu_kllm.Prelude.{
  ℕ, zero, suc, ◌+◌, ◌-◌, Bool, true, false, ◌&&◌, ◌||◌, not, List, [], ◌∷◌, map, length, get_or,
  set, replicate, ltb, leb, ◌==◌, if◌then◌else◌,
}
use xpu_kllm.Prelude.Words.{sub32}

pub record Floats (F : Type 0) : Type 0 where
  pub neg_infinity : F
  pub zero_float : F
  pub gt : F → F → Bool
  pub le : F → F → Bool
  pub add : F → F → F
  pub sub : F → F → F
  pub div : F → F → F
  pub exp : F → F

pub data Method : Type 0 where
  greedy top_k top_p temperature unknown : Method

pub record Params (F : Type 0) : Type 0 where
  pub max_tokens : ℕ
  pub eos_token_id : ℕ
  pub sampling : Method
  pub temperature : F
  pub top_k : ℕ
  pub top_p : F

-- What the environment gives one choice: `rand() / RAND_MAX`, and whether the buffers are allocated.
pub record Chance (F : Type 0) : Type 0 where
  pub draw : F
  pub probs_fit : Bool
  pub tops_fit : Bool

module _ {F : Type 0} (fl : Floats F) where
  -- The loop of `sample_greedy`, from position `i` with the greatest logit so far.
  unfoldable pub greedy_from : List F → ℕ → F → ℕ → ℕ
  greedy_from [] i max_val max_idx = max_idx
  greedy_from (x ∷ xs) i max_val max_idx =
      let better = fl.gt x max_val in
      greedy_from xs (i + 1) (if better then x else max_val) (if better then i else max_idx)

  unfoldable pub sample_greedy : List F → ℕ
  unfolding greedy_from
  sample_greedy logits = greedy_from logits 0 fl.neg_infinity 0

  unfoldable pub max_logit : List F → F → F
  max_logit [] m = m
  max_logit (x ∷ xs) m = max_logit xs (if fl.gt x m then x else m)

  unfoldable pub sum_of : List F → F → F
  sum_of [] acc = acc
  sum_of (p ∷ ps) acc = sum_of ps (fl.add acc p)

  -- `r <= cumsum` ends the loop at its position; `token` is the answer if it never holds.
  unfoldable pub pick_from : List F → ℕ → F → F → ℕ → ℕ
  pick_from [] i cumsum r token = token
  pick_from (p ∷ ps) i cumsum r token =
      let rest = pick_from ps (i + 1) (fl.add cumsum p) r token in
      if fl.le r (fl.add cumsum p) then i else rest

  unfoldable pub sample_temperature : Chance F → List F → F → ℕ
  unfolding sample_greedy max_logit sum_of pick_from
  sample_temperature luck logits t =
      let m = max_logit logits fl.neg_infinity in
      let weights = map (λ (x : F). fl.exp (fl.div (fl.sub x m) t)) logits in
      let sum = sum_of weights fl.zero_float in
      let probs = map (λ (w : F). fl.div w sum) weights in
      if fl.le t fl.zero_float
      then sample_greedy logits
      else if not luck.probs_fit
      then sample_greedy logits
      else pick_from probs 0 fl.zero_float luck.draw (sub32 (length logits) 1)

  -- The arrays of values and positions, as one list of pairs.
  abbrev pub top_start : F × ℕ
  top_start = (fl.neg_infinity, 0)

  abbrev pub top_at : List (F × ℕ) → ℕ → F × ℕ
  top_at top j = get_or top j top_start

  abbrev pub exchange : List (F × ℕ) → ℕ → List (F × ℕ)
  exchange top j = set (set top j (top_at top (j + 1))) (j + 1) (top_at top j)

  -- `for (j = k - 2; j >= 0; j--)`: `n` is `j + 1`.
  unfoldable pub bubble_up : List (F × ℕ) → ℕ → List (F × ℕ)
  bubble_up top zero = top
  bubble_up top (suc j) =
      bubble_up (if fl.gt (top_at top (j + 1)).0 (top_at top j).0 then exchange top j else top) j

  -- One logit against the smallest of the best `k`.
  unfoldable pub top_step : ℕ → List (F × ℕ) → F → ℕ → List (F × ℕ)
  unfolding bubble_up
  top_step k top x i =
      if fl.gt x (top_at top (k - 1)).0 then bubble_up (set top (k - 1) (x, i)) (k - 1) else top

  unfoldable pub top_from : ℕ → List F → ℕ → List (F × ℕ) → List (F × ℕ)
  unfolding top_step
  top_from k [] i top = top
  top_from k (x ∷ xs) i top = top_from k xs (i + 1) (top_step k top x i)

  unfoldable pub sample_top_k : Chance F → List F → ℕ → F → ℕ
  unfolding top_from sample_temperature sample_greedy
  sample_top_k luck logits k t =
      let top = top_from k logits 0 (replicate k top_start) in
      let result = sample_temperature luck (map (λ (p : F × ℕ). p.0) top) t in
      if (k == 0) || leb (length logits) k
      then sample_temperature luck logits t
      else if not luck.tops_fit
      then sample_greedy logits
      else (top_at top (if ltb result k then result else 0)).1

  unfoldable pub sample_top_p : Chance F → List F → F → F → ℕ
  unfolding sample_temperature
  sample_top_p luck logits p t = sample_temperature luck logits t

  unfoldable pub sample_token : Chance F → List F → Params F → ℕ
  unfolding sample_greedy sample_temperature sample_top_k sample_top_p
  sample_token luck logits params = elim params.sampling [
    | greedy ↦ sample_greedy logits
    | temperature ↦ sample_temperature luck logits params.temperature
    | top_k ↦ sample_top_k luck logits params.top_k params.temperature
    | top_p ↦ sample_top_p luck logits params.top_p params.temperature
    | unknown ↦ sample_greedy logits
  ]
