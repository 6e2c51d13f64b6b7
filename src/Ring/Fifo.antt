-- ===== src/Ring/Fifo.antt =====
-- The specification of a ring: a queue of bounded size, oldest first.
use xpu_kllm.Prelude.{
  ℕ, ◌-◌, ◌≡◌, sym, ap, ◌∙◌, arith, List, [], ◌∷◌, ◌++◌, append_assoc, append-nil, Option, none,
  some, Rc, ok, fail, length, length-append, ltb, lt→ltb, le→ltb, take, take_nil, take_cons, drop,
  if◌then◌else◌,
}
use native.Mathlib.Decide.{dec_lt}

unfoldable pub push : ℕ → List ℕ → ℕ → Rc × List ℕ
push cap q x = if ltb (length q) cap then (ok, q ++ (x ∷ [])) else (fail, q)

unfoldable pub pop : List ℕ → Option (ℕ × List ℕ)
pop [] = none
pop (x ∷ q) = some (x, q)

unfoldable pub pop_many : List ℕ → ℕ → List ℕ × List ℕ
pop_many q n = (take n q, drop n q)

-- Tokens put behind a queue of bounded size, as far as they fit.
unfoldable pub fit : ℕ → List ℕ → List ℕ → List ℕ
fit cap q xs = q ++ take (cap - length q) xs

pub fit_nil : (cap : ℕ) (q : List ℕ) → fit cap q [] ≡ q
unfolding fit
fit_nil cap q = ap (◌++◌ q) (take_nil ℕ (cap - length q)) ∙ append-nil q

pub fit_cons :
    (cap x : ℕ) (q xs : List ℕ)
    → fit cap (if ltb (length q) cap then q ++ (x ∷ []) else q) xs ≡ fit cap q (x ∷ xs)
unfolding fit
fit_cons cap x q xs = elim (dec_lt (length q) cap) [
  | yes h ↦ rw (lt→ltb (length q) cap h) (
      ap (λ (k : ℕ). (q ++ (x ∷ [])) ++ take k xs) (omega (arith, length-append q (x ∷ [])))
      ∙ append_assoc q (x ∷ []) (take (cap - length q - 1) xs)
      ∙ ap (◌++◌ q) (sym (take_cons (cap - length q) x xs (omega arith))))
  | no h ↦
      let e : cap - length q ≡ 0 = omega arith in
      rw (le→ltb (length q) cap (omega arith))
        (ap (λ (k : ℕ). q ++ take k xs) e ∙ sym (ap (λ (k : ℕ). q ++ take k (x ∷ xs)) e))
]
