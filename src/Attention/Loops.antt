-- ===== src/Attention/Loops.antt =====
-- The loops of the attention kernels write every element of the output once.
use native.Mathlib.Decide.{ℕ_discrete}
use native.Mathlib.Nat.{
  mul-add-div_right, mul-add-mod_self_right, div-eq_of_lt, mod-eq_of_lt, mul-le-mul_right,
  le-mul_of_pos_right,
}
use xpu_kllm.Prelude.{
  ℕ, zero, suc, ◌+◌, ◌*◌, ◌/◌, ◌%◌, ◌^◌, ◌≤◌, ◌<◌, ◌≡◌, ◌≢◌, refl, sym, ap, subst, ◌∙◌, arith, List,
  get_or, get_or-set_self, get_or-set_ne, length, length-set,
}
use xpu_kllm.Prelude.Words.{u32}
use xpu_kllm.Attention.{
  Floats, Params, row, weigh_from, weights, write_from, queries_from, f32_to_bf16,
}

-- A call whose offsets do not wrap round, with an output that holds all its elements.
pub record Fits {F : Type 0} (p : Params F) (out : List ℕ) : Type 0 where
  pub wide : 0 < p.head_dim
  pub words : p.query_len * p.num_heads * p.head_dim < 2 ^ 32
  pub room : p.query_len * p.num_heads * p.head_dim ≤ length out

-- The place of element `d` of head `h` at query position `qi`.
abbrev pub cell : {F : Type 0} → Params F → ℕ → ℕ → ℕ → ℕ
cell p qi h d = (qi * p.num_heads + h) * p.head_dim + d

digits_inversion :
    (b x d x' d' : ℕ) → d < b → d' < b → x * b + d ≡ x' * b + d' → (x ≡ x') × (d ≡ d')
digits_inversion b x d x' d' ld ld' e =
    let high : (y c : ℕ) → c < b → (y * b + c) / b ≡ y =
      λ y c lc. mul-add-div_right {m = b} (omega arith) y c ∙ omega (arith, div-eq_of_lt lc) in
    let low : (y c : ℕ) → c < b → (y * b + c) % b ≡ c =
      λ y c lc. mul-add-mod_self_right y b c ∙ mod-eq_of_lt lc in
    (
      sym (high x d ld) ∙ ap (λ (t : ℕ). t / b) e ∙ high x' d' ld',
      sym (low x d ld) ∙ ap (λ (t : ℕ). t % b) e ∙ low x' d' ld',
    )

module _ {F : Type 0} (p : Params F) (n : ℕ) where
  -- The last element of a row of `n` positions is inside the array.
  pub row_end :
      (i h : ℕ)
      → i < n
      → h < p.num_heads
      → (i * p.num_heads + h) * p.head_dim + p.head_dim ≤ n * p.num_heads * p.head_dim
  row_end i h li lh =
      let whole : i * p.num_heads + h + 1 ≤ n * p.num_heads =
        grind (arith, mul-le-mul_right {m = i + 1} {n = n} p.num_heads (omega (arith, li))) in
      grind (
        arith,
        mul-le-mul_right {m = i * p.num_heads + h + 1} {n = n * p.num_heads} p.head_dim whole,
      )

  pub row_lem :
      (i h : ℕ)
      → 0 < p.head_dim
      → n * p.num_heads * p.head_dim < 2 ^ 32
      → i < n
      → h < p.num_heads
      → row p i h ≡ (i * p.num_heads + h) * p.head_dim
  unfolding row
  row_lem i h wide words li lh =
      let x = i * p.num_heads + h in
      let end = row_end i h li lh in
      let low : x * p.head_dim < 2 ^ 32 = omega (arith, end, words, wide) in
      let small : x ≤ x * p.head_dim = le-mul_of_pos_right x wide in
      let first : u32 (u32 (i * p.num_heads) + h) ≡ x = omega (arith, small, low) in
      ap (λ (y : ℕ). u32 (y * p.head_dim)) first ∙ mod-eq_of_lt low

module _ {F : Type 0} (fl : Floats F) (p : Params F) (v : ℕ → ℕ) where
  -- What a call writes for head `h`, query position `qi` and element `d`.
  unfoldable pub result : (ℕ → ℕ → F) → ℕ → ℕ → ℕ → ℕ
  result score h qi d =
      f32_to_bf16 fl (weigh_from fl p v h d (weights fl score p h qi) 0 fl.zero_float)

  pub length-write_from :
      (ws : List F) (h base d n : ℕ) (out : List ℕ)
      → length (write_from fl p v ws h base d n out) ≡ length out
  unfolding write_from
  length-write_from ws h base d zero out = refl
  length-write_from ws h base d (suc n) out =
      length-write_from ws h base (d + 1) n _ ∙ length-set out (base + d) _

  pub write_other :
      (ws : List F) (h base d n : ℕ) (out : List ℕ) (j : ℕ)
      → ((e : ℕ) → d ≤ e → e < d + n → base + e ≢ j)
      → get_or (write_from fl p v ws h base d n out) j 0 ≡ get_or out j 0
  unfolding write_from
  write_other ws h base d zero out j apart = refl
  write_other ws h base d (suc n) out j apart =
      write_other ws h base (d + 1) n _ j (λ e le lt. apart e (omega arith) (omega arith))
      ∙ get_or-set_ne out (base + d) j _ 0 (apart d (omega arith) (omega arith))

  pub write_one :
      (ws : List F) (h base d n : ℕ) (out : List ℕ) (e : ℕ)
      → base + d + n ≤ length out
      → d ≤ e
      → e < d + n
      → get_or (write_from fl p v ws h base d n out) (base + e) 0
        ≡ f32_to_bf16 fl (weigh_from fl p v h e ws 0 fl.zero_float)
  unfolding write_from
  write_one ws h base d zero out e room le lt = absurd (omega arith)
  write_one ws h base d (suc n) out e room le lt = elim (ℕ_discrete d e) [
    | yes same ↦
        subst
          (λ (x : ℕ).
            get_or (write_from fl p v ws h base d (suc n) out) (base + x) 0
            ≡ f32_to_bf16 fl (weigh_from fl p v h x ws 0 fl.zero_float))
          same
          (write_other ws h base (d + 1) n _ (base + d) (λ x a b. λ q. absurd (omega (arith, q)))
            ∙ get_or-set_self out (base + d) _ 0 (omega arith))
    | no ne ↦
        write_one ws h base (d + 1) n _ e (omega (arith, length-set out (base + d) _)) (omega arith)
          (omega arith)
  ]

  -- Different elements have different places.
  pub cell_inversion :
      (qi h d qi' h' d' : ℕ)
      → d < p.head_dim
      → d' < p.head_dim
      → h < p.num_heads
      → h' < p.num_heads
      → cell p qi h d ≡ cell p qi' h' d'
      → (qi ≡ qi') × (h ≡ h') × (d ≡ d')
  cell_inversion qi h d qi' h' d' ld ld' lh lh' e =
      let (x, same_d) =
        digits_inversion p.head_dim (qi * p.num_heads + h) d (qi' * p.num_heads + h') d' ld ld' e in
      let (y, same_h) = digits_inversion p.num_heads qi h qi' h' lh lh' x in (y, same_h, same_d)

  pub queries_other :
      (score : ℕ → ℕ → F) (h qi n : ℕ) (out : List ℕ) (j : ℕ)
      → ((i d : ℕ) → qi ≤ i → i < qi + n → d < p.head_dim → row p i h + d ≢ j)
      → get_or (queries_from fl score p v h qi n out) j 0 ≡ get_or out j 0
  unfolding queries_from
  queries_other score h qi zero out j apart = refl
  queries_other score h qi (suc n) out j apart =
      queries_other score h (qi + 1) n _ j
        (λ i d le lt ld. apart i d (omega arith) (omega arith) ld)
      ∙ write_other (weights fl score p h qi) h (row p qi h) 0 p.head_dim out j
          (λ e le lt. apart qi e (omega arith) (omega arith) (omega arith))

  pub length-queries_from :
      (score : ℕ → ℕ → F) (h qi n : ℕ) (out : List ℕ)
      → length (queries_from fl score p v h qi n out) ≡ length out
  unfolding queries_from
  length-queries_from score h qi zero out = refl
  length-queries_from score h qi (suc n) out =
      length-queries_from score h (qi + 1) n _
      ∙ length-write_from (weights fl score p h qi) h (row p qi h) 0 p.head_dim out
