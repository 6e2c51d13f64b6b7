-- ===== src/Sampling/Argmax.antt =====
-- The greedy choice is the first greatest logit.
use xpu_kllm.Prelude.{
  ℕ, zero, suc, ◌+◌, ◌<◌, ◌≡◌, refl, subst, arith, true, false, ◌⊎◌, inl, inr, Bool-cases, List, [],
  ◌∷◌, length, get_or,
}
use xpu_kllm.Sampling.{Floats, greedy_from, sample_greedy}

-- Comparison of floats that are numbers.
pub record Ordered {F : Type 0} (fl : Floats F) : Type 0 where
  pub irrefl : (a : F) → fl.gt a a ≡ false
  pub asym : (a b : F) → fl.gt a b ≡ true → fl.gt b a ≡ false
  pub trans : (a b c : F) → fl.gt a b ≡ true → fl.gt b c ≡ true → fl.gt a c ≡ true
  pub weak : (a b c : F) → fl.gt a c ≡ true → fl.gt b c ≡ false → fl.gt a b ≡ true

module _ {F : Type 0} (fl : Floats F) where
  abbrev pub logit : List F → ℕ → F
  logit xs j = get_or xs j fl.neg_infinity

  -- No logit is greater than that of `k`, and those before it are less.
  abbrev pub IsFirstMax : List F → ℕ → Type 0
  IsFirstMax xs k =
      (k < length xs)
      × ((j : ℕ) → j < length xs → fl.gt (logit xs j) (logit xs k) ≡ false)
      × ((j : ℕ) → j < k → fl.gt (logit xs k) (logit xs j) ≡ true)

  abbrev NoneAbove : List F → F → Type 0
  NoneAbove xs m = (j : ℕ) → j < length xs → fl.gt (logit xs j) m ≡ false

  NoneAbove-cons :
      (x : F) (xs : List F) (m : F) → fl.gt x m ≡ false → NoneAbove xs m → NoneAbove (x ∷ xs) m
  NoneAbove-cons x xs m h hs zero lt = h
  NoneAbove-cons x xs m h hs (suc j) lt = hs j (omega arith)

  abbrev AllBelow : List F → ℕ → F → Type 0
  AllBelow xs k m = (j : ℕ) → j < k → fl.gt m (logit xs j) ≡ true

  AllBelow-cons :
      (x : F) (xs : List F) (k : ℕ) (m : F)
      → fl.gt m x ≡ true
      → AllBelow xs k m
      → AllBelow (x ∷ xs) (suc k) m
  AllBelow-cons x xs k m h hs zero lt = h
  AllBelow-cons x xs k m h hs (suc j) lt = hs j (omega arith)

  module _ (o : Ordered fl) where
    greedy_from_lem :
        (xs : List F) (i : ℕ) (m : F) (best : ℕ)
        → ((greedy_from fl xs i m best ≡ best) × NoneAbove xs m)
          ⊎ ((k : ℕ) × (greedy_from fl xs i m best ≡ i + k)
              × (fl.gt (logit xs k) m ≡ true)
              × IsFirstMax xs k)
    unfolding greedy_from
    greedy_from_lem [] i m best = inl (refl, λ j lt. absurd (omega arith))
    greedy_from_lem (x ∷ xs) i m best = elim (Bool-cases (fl.gt x m)) [
      | inl better ↦ rw better elim (greedy_from_lem xs (i + 1) x i) [
        | inl (here, above) ↦ inr (
          zero,
          omega (arith, here),
          better,
          (omega arith, NoneAbove-cons x xs x (o.irrefl x) above, λ j lt. absurd (omega arith)),
        )
        | inr (k, here, more, (lt, above, below)) ↦ inr (
          suc k,
          omega (arith, here),
          o.trans (logit xs k) x m more better,
          (
            omega (arith, lt),
            NoneAbove-cons x xs (logit xs k) (o.asym (logit xs k) x more) above,
            AllBelow-cons x xs k (logit xs k) more below,
          ),
        )
      ]
      | inr worse ↦ rw worse elim (greedy_from_lem xs (i + 1) m best) [
        | inl (here, above) ↦ inl (here, NoneAbove-cons x xs m worse above)
        | inr (k, here, more, (lt, above, below)) ↦
            let first : fl.gt (logit xs k) x ≡ true = o.weak (logit xs k) x m more worse in
            inr (
              suc k,
              omega (arith, here),
              more,
              (
                omega (arith, lt),
                NoneAbove-cons x xs (logit xs k) (o.asym (logit xs k) x first) above,
                AllBelow-cons x xs k (logit xs k) first below,
              ),
            )
      ]
    ]

    -- When the floats that occur are compared as numbers are and a first logit is above minus
    -- infinity, the greedy choice is the position of the first greatest logit.
    pub sample_greedy_lem :
        (logits : List F)
        → 0 < length logits
        → fl.gt (logit logits 0) fl.neg_infinity ≡ true
        → IsFirstMax logits (sample_greedy fl logits)
    unfolding sample_greedy
    sample_greedy_lem logits h number = elim (greedy_from_lem logits 0 fl.neg_infinity 0) [
      | inl (here, above) ↦ absurd (ground (arith, above 0 h))
      | inr (k, here, more, best) ↦ subst (IsFirstMax logits) (omega (arith, here)) best
    ]
