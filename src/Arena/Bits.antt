-- ===== src/Arena/Bits.antt =====
-- Which slots are free, and the search for one.
use xpu_kllm.Prelude.{
  ℕ, zero, suc, ◌+◌, ◌/◌, ◌%◌, ◌≤◌, ◌<◌, ◌≡◌, ◌≢◌, refl, sym, ap, ◌∙◌, arith, Bool, true, false,
  List, [], ◌∷◌, none, some, inl, inr, Option-cases, get_or, set, get_or-set_self, get_or-set_ne,
  length,
}
use native.Mathlib.Decide.{dec_lt, ℕ_discrete}
use xpu_kllm.Arena.{ctz, find_word}

unfoldable pub bit_at : List (List Bool) → ℕ → Bool
bit_at bitmap slot = get_or (get_or bitmap (slot / 64) []) (slot % 64) false

pub ctz-some :
    (bs : List Bool) (i : ℕ) → ctz bs ≡ some i → (i < length bs) × (get_or bs i false ≡ true)
unfolding ctz
ctz-some [] i e = ground arith
ctz-some (true ∷ bs) zero e = (omega arith, refl)
ctz-some (true ∷ bs) (suc i) e = ground arith
ctz-some (false ∷ bs) zero e = ground arith
ctz-some (false ∷ bs) (suc i) e = elim (Option-cases (ctz bs)) [
  | inl n ↦ ground (arith, n)
  | inr (j, n) ↦ let (lt, h) = ctz-some bs i (ground (arith, n)) in (omega (arith, lt), h)
]

ctz-none : (bs : List Bool) (i : ℕ) → ctz bs ≡ none → get_or bs i false ≡ false
unfolding ctz
ctz-none [] i e = refl
ctz-none (true ∷ bs) i e = ground arith
ctz-none (false ∷ bs) zero e = refl
ctz-none (false ∷ bs) (suc i) e = ctz-none bs i (ground arith)

pub find_word-some :
    (bitmap : List (List Bool)) (w n v b : ℕ)
    → find_word bitmap w n ≡ some (v, b)
    → (v < w + n) × (ctz (get_or bitmap v []) ≡ some b)
unfolding find_word
find_word-some bitmap w zero v b e = ground arith
find_word-some bitmap w (suc n) v b e = elim (Option-cases (ctz (get_or bitmap w []))) [
  | inl skip ↦
      let (lt, h) = find_word-some bitmap (w + 1) n v b (ground (arith, skip)) in (omega arith, h)
  | inr (j, hit) ↦
      let same : w ≡ v = ground (arith, hit) in
      let bit : j ≡ b = ground (arith, hit) in
      (omega arith, ap (λ (k : ℕ). ctz (get_or bitmap k [])) (sym same) ∙ hit ∙ ap some bit)
]

pub find_word-none :
    (bitmap : List (List Bool)) (w n v i : ℕ)
    → find_word bitmap w n ≡ none
    → w ≤ v
    → v < w + n
    → get_or (get_or bitmap v []) i false ≡ false
unfolding find_word
find_word-none bitmap w zero v i e le lt = absurd (omega arith)
find_word-none bitmap w (suc n) v i e le lt = elim (Option-cases (ctz (get_or bitmap w []))) [
  | inl skip ↦ elim (dec_lt w v) [
    | yes further ↦
        find_word-none bitmap (w + 1) n v i (ground (arith, skip)) (omega arith) (omega arith)
    | no here ↦
        let same : v ≡ w = omega arith in
        ap (λ (k : ℕ). get_or (get_or bitmap k []) i false) same
        ∙ ctz-none (get_or bitmap w []) i skip
  ]
  | inr (j, hit) ↦ ground (arith, hit)
]

-- One bit written: that bit changes and no other one.
pub bit_at-set_self :
    (bitmap : List (List Bool)) (slot : ℕ) (x : Bool)
    → slot / 64 < length bitmap
    → length (get_or bitmap (slot / 64) []) ≡ 64
    → bit_at (set bitmap (slot / 64) (set (get_or bitmap (slot / 64) []) (slot % 64) x)) slot ≡ x
unfolding bit_at
bit_at-set_self bitmap slot x lt len =
    ap (λ (l : List Bool). get_or l (slot % 64) false) (get_or-set_self bitmap (slot / 64) _ [] lt)
    ∙ get_or-set_self (get_or bitmap (slot / 64) []) (slot % 64) x false (omega arith)

pub bit_at-set_ne :
    (bitmap : List (List Bool)) (slot other : ℕ) (x : Bool)
    → slot / 64 < length bitmap
    → slot ≢ other
    → bit_at (set bitmap (slot / 64) (set (get_or bitmap (slot / 64) []) (slot % 64) x)) other
      ≡ bit_at bitmap other
unfolding bit_at
bit_at-set_ne bitmap slot other x lt ne = elim (ℕ_discrete (slot / 64) (other / 64)) [
  | yes same ↦
      ap
        (λ (k : ℕ).
          get_or
            (get_or (set bitmap (slot / 64) (set (get_or bitmap (slot / 64) []) (slot % 64) x)) k
              [])
            (other % 64) false)
        (sym same)
      ∙ ap (λ (l : List Bool). get_or l (other % 64) false)
          (get_or-set_self bitmap (slot / 64) _ [] lt)
      ∙ get_or-set_ne (get_or bitmap (slot / 64) []) (slot % 64) (other % 64) x false
          (λ e. ne (omega arith))
      ∙ ap (λ (k : ℕ). get_or (get_or bitmap k []) (other % 64) false) same
  | no differ ↦
      ap (λ (l : List Bool). get_or l (other % 64) false)
        (get_or-set_ne bitmap (slot / 64) (other / 64) _ [] differ)
]
