-- ===== src/Attention/Cells.antt =====
-- The attention kernels, element by element of their output.
use native.Mathlib.Decide.{ℕ_discrete}
use xpu_kllm.Prelude.{
  ℕ, zero, suc, ◌+◌, ◌*◌, ◌^◌, ◌≤◌, ◌<◌, ◌≡◌, ◌≢◌, refl, sym, ap, subst, ◌∙◌, arith, List, get_or,
  length,
}
use xpu_kllm.Attention.{
  Floats, Params, row, weights, write_from, queries_from, heads_from, attention_scalar,
  score_scalar,
}
use xpu_kllm.Attention.Reference.{attention_at, result_lem}
use xpu_kllm.Attention.Loops.{
  Fits, cell, cell_inversion, row_end, row_lem, result, write_one, queries_other, length-write_from,
  length-queries_from,
}

same_size-Fits :
    {F : Type 0} {p : Params F} {out out' : List ℕ}
    → Fits p out
    → length out' ≡ length out
    → Fits p out'
same_size-Fits fits e = record {
  wide = fits.wide;
  words = fits.words;
  room = omega (arith, fits.room, e);
}

module _ {F : Type 0} (fl : Floats F) (p : Params F) (v : ℕ → ℕ) (score : ℕ → ℕ → F) where
  queries_one :
      (h qi n : ℕ) (out : List ℕ) (i d : ℕ)
      → Fits p out
      → h < p.num_heads
      → qi + n ≤ p.query_len
      → qi ≤ i
      → i < qi + n
      → d < p.head_dim
      → get_or (queries_from fl score p v h qi n out) (cell p i h d) 0 ≡ result fl p v score h i d
  unfolding queries_from result
  queries_one h qi zero out i d fits lh lq le lt ld = absurd (omega arith)
  queries_one h qi (suc n) out i d fits lh lq le lt ld =
      let row_at : (k : ℕ) → k < p.query_len → row p k h ≡ (k * p.num_heads + h) * p.head_dim =
        λ k lk. row_lem p p.query_len k h fits.wide fits.words lk lh in
      let ws = weights fl score p h qi in
      let next = write_from fl p v ws h (row p qi h) 0 p.head_dim out in
      let size = length-write_from fl p v ws h (row p qi h) 0 p.head_dim out in
      elim (ℕ_discrete qi i) [
        | yes same ↦
            let here = row_at qi (omega arith) in
            let end = row_end p p.query_len qi h (omega arith) lh in
            subst
              (λ (x : ℕ).
                get_or (queries_from fl score p v h (qi + 1) n next) (cell p x h d) 0
                ≡ result fl p v score h x d)
              same
              (queries_other fl p v score h (qi + 1) n next (cell p qi h d) (λ k c a b lc. λ q.
                  absurd (
                    omega (
                      arith,
                      (cell_inversion fl p v k h c qi h d lc ld lh lh
                          (ap (λ (x : ℕ). x + c) (sym (row_at k (omega arith))) ∙ q)).0,
                    )))
                ∙ subst (λ (x : ℕ). get_or next (x + d) 0 ≡ result fl p v score h qi d) here
                    (write_one fl p v ws h (row p qi h) 0 p.head_dim out d
                      (omega (arith, here, end, fits.room)) (omega arith) (omega arith)))
        | no ne ↦
            queries_one h (qi + 1) n next i d (same_size-Fits fits size) lh (omega arith)
              (omega arith) (omega arith) ld
      ]

  heads_other :
      (h n : ℕ) (out : List ℕ) (j : ℕ)
      → ((i g d : ℕ) → i < p.query_len → h ≤ g → g < h + n → d < p.head_dim → row p i g + d ≢ j)
      → get_or (heads_from fl score p v h n out) j 0 ≡ get_or out j 0
  unfolding heads_from
  heads_other h zero out j apart = refl
  heads_other h (suc n) out j apart =
      heads_other (h + 1) n _ j (λ i g d li le lt ld. apart i g d li (omega arith) (omega arith) ld)
      ∙ queries_other fl p v score h 0 p.query_len out j
          (λ i d le lt ld. apart i h d (omega arith) (omega arith) (omega arith) ld)

  -- Element by element, what a kernel with these scores leaves in the output.
  heads_one :
      (h n : ℕ) (out : List ℕ) (qi g d : ℕ)
      → Fits p out
      → h + n ≤ p.num_heads
      → h ≤ g
      → g < h + n
      → qi < p.query_len
      → d < p.head_dim
      → get_or (heads_from fl score p v h n out) (cell p qi g d) 0 ≡ result fl p v score g qi d
  unfolding heads_from
  heads_one h zero out qi g d fits lh le lt lq ld = absurd (omega arith)
  heads_one h (suc n) out qi g d fits lh le lt lq ld =
      let size = length-queries_from fl p v score h 0 p.query_len out in
      elim (ℕ_discrete h g) [
        | yes same ↦
            let other : get_or
                  (heads_from fl score p v (h + 1) n
                    (queries_from fl score p v h 0 p.query_len out))
                  (cell p qi h d) 0
                ≡ get_or (queries_from fl score p v h 0 p.query_len out) (cell p qi h d) 0 =
              heads_other (h + 1) n _ (cell p qi h d) (λ i k c li a b lc. λ q. absurd (
                omega (
                  arith,
                  (cell_inversion fl p v i k c qi h d lc ld (omega arith) (omega arith) (
                      ap (λ (x : ℕ). x + c)
                        (sym (row_lem p p.query_len i k fits.wide fits.words li (omega arith)))
                      ∙ q)).1,
                ))) in
            subst
              (λ (x : ℕ).
                get_or (heads_from fl score p v h (suc n) out) (cell p qi x d) 0
                ≡ result fl p v score x qi d)
              same
              (other
                ∙ queries_one h 0 p.query_len out qi d fits (omega arith) (omega arith)
                    (omega arith) (omega arith) ld)
        | no ne ↦
            heads_one (h + 1) n (queries_from fl score p v h 0 p.query_len out) qi g d
              (same_size-Fits fits size) (omega arith) (omega arith) (omega arith) lq ld
      ]

-- The scalar kernel is scaled dot-product attention, whatever the output held before. For a call
-- whose head dimension is not 0, whose offsets do not wrap round and whose output has room, element
-- `d` of head `h` at query position `qi` is the sum over the keys of the head's values, weighted by
-- the softmax of the scaled dot products of query and keys, rounded to bfloat16; sums are taken in
-- the order of the keys and of the elements.
pub attention_scalar_lem :
    {F : Type 0} (fl : Floats F) (p : Params F) (q k v : ℕ → ℕ) (out : List ℕ) (qi h d : ℕ)
    → Fits p out
    → p.seq_len * p.num_heads * p.head_dim < 2 ^ 32
    → qi < p.query_len
    → h < p.num_heads
    → d < p.head_dim
    → get_or (attention_scalar fl q k v out p) (cell p qi h d) 0 ≡ attention_at fl p q k v qi h d
unfolding attention_scalar
attention_scalar_lem fl p q k v out qi h d fits key_words lq lh ld =
    heads_one fl p v (score_scalar fl p q k) 0 p.num_heads out qi h d fits (omega arith)
      (omega arith) (omega arith) lq ld
    ∙ result_lem fl p q k v h qi d fits.wide fits.words key_words lq lh
