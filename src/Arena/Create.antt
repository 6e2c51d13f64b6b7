-- ===== src/Arena/Create.antt =====
-- `kllm_arena_create`: the arena that it makes, and when it makes none.
use native.Mathlib.Nat.{div-mul-le_self, div-eq-sub-div}
use native.Mathlib.Decide.{dec_lt, ℕ_discrete}
use xpu_kllm.Prelude.{
  ℕ, zero, suc, ◌+◌, ◌-◌, ◌/◌, ◌%◌, ◌^◌, ◌≤◌, ◌<◌, ◌≡◌, refl, sym, ap, subst, ◌∙◌, arith, Bool,
  true, false, List, [], ◌∷◌, ◌++◌, Option, none, some, ◌⊎◌, inl, inr, get_or, set, get_or-set_self,
  get_or-set_ne, replicate, length, length-append, length-replicate, length-set, ltb, lt→ltb,
  le→ltb, ==_of_ne,
}
use xpu_kllm.Arena.{
  Arena, Model, block_total_bytes, align_up, full_word, low_bits, fresh_bitmap, made, create,
}
use xpu_kllm.Arena.Bits.{bit_at}
use xpu_kllm.Arena.Alloc.{is_free, IsValid}

get_or-replicate : {A : Type 0} (n i : ℕ) (x d : A) → i < n → get_or (replicate n x) i d ≡ x
get_or-replicate zero i x d h = absurd (omega arith)
get_or-replicate (suc n) zero x d h = refl
get_or-replicate (suc n) (suc i) x d h = get_or-replicate n i x d (omega arith)

get_or_out : {A : Type 0} (xs : List A) (i : ℕ) (d : A) → length xs ≤ i → get_or xs i d ≡ d
get_or_out [] i d h = refl
get_or_out (x ∷ xs) zero d h = absurd (omega arith)
get_or_out (x ∷ xs) (suc i) d h = get_or_out xs i d (omega arith)

get_or-replicate_self : {A : Type 0} (n i : ℕ) (x : A) → get_or (replicate n x) i x ≡ x
get_or-replicate_self zero i x = refl
get_or-replicate_self (suc n) zero x = refl
get_or-replicate_self (suc n) (suc i) x = get_or-replicate_self n i x

low_bits_lem : (n k i : ℕ) → get_or (replicate n true ++ replicate k false) i false ≡ ltb i n
low_bits_lem zero k i = get_or-replicate_self k i false ∙ sym (le→ltb i 0 (omega arith))
low_bits_lem (suc n) k zero = sym (lt→ltb 0 (suc n) (omega arith))
low_bits_lem (suc n) k (suc i) = low_bits_lem n k i ∙ ground arith

full_lem :
    (words w i : ℕ)
    → i < 64
    → get_or (get_or (replicate words full_word) w []) i false ≡ ltb w words
full_lem words w i h = elim (dec_lt w words) [
  | yes lt ↦
      ap (λ (l : List Bool). get_or l i false) (get_or-replicate words w full_word [] lt)
      ∙ get_or-replicate 64 i true false h
      ∙ sym (lt→ltb w words lt)
  | no ge ↦
      ap (λ (l : List Bool). get_or l i false)
        (get_or_out (replicate words full_word) w []
          (omega (arith, length-replicate words full_word)))
      ∙ sym (le→ltb w words (omega arith))
]

ltb_cases : (a b c d : ℕ) → (a < b → c < d) → (b ≤ a → d ≤ c) → ltb a b ≡ ltb c d
ltb_cases a b c d f g = elim (dec_lt a b) [
  | yes lt ↦ lt→ltb a b lt ∙ sym (lt→ltb c d (f lt))
  | no ge ↦ le→ltb a b (omega arith) ∙ sym (le→ltb c d (g (omega arith)))
]

-- The free slots of a new bitmap are the slots of the arena.
fresh_lem : (total slot : ℕ) → bit_at (fresh_bitmap total) slot ≡ ltb slot total
unfolding bit_at fresh_bitmap
fresh_lem total slot = elim (dec_lt 0 (total % 64)) [
  | no none_left ↦ rw (le→ltb 0 (total % 64) (omega arith)) (
      full_lem ((total + 63) / 64) (slot / 64) (slot % 64) (omega arith)
      ∙ ltb_cases (slot / 64) ((total + 63) / 64) slot total (λ h. omega arith) (λ h. omega arith))
  | yes left ↦
      rw (lt→ltb 0 (total % 64) left) (elim (ℕ_discrete ((total + 63) / 64 - 1) (slot / 64)) [
        | yes last ↦
            ap
              (λ (w : ℕ).
                get_or (get_or (set full ((total + 63) / 64 - 1) (low_bits (total % 64))) w [])
                  (slot % 64) false)
              (sym last)
            ∙ ap (λ (l : List Bool). get_or l (slot % 64) false)
                (get_or-set_self full ((total + 63) / 64 - 1) (low_bits (total % 64)) []
                  (omega (arith, length-replicate ((total + 63) / 64) full_word)))
            ∙ low_bits_lem (total % 64) (64 - total % 64) (slot % 64)
            ∙ ltb_cases (slot % 64) (total % 64) slot total (λ h. omega arith) (λ h. omega arith)
        | no differ ↦
            ap (λ (l : List Bool). get_or l (slot % 64) false)
              (get_or-set_ne full ((total + 63) / 64 - 1) (slot / 64) (low_bits (total % 64)) []
                differ)
            ∙ full_lem ((total + 63) / 64) (slot / 64) (slot % 64) (omega arith)
            ∙ ltb_cases (slot / 64) ((total + 63) / 64) slot total (λ h. omega arith)
                (λ h. omega arith)
      ])
]
  where
    full : List (List Bool)
    full = replicate ((total + 63) / 64) full_word

length-fresh_bitmap : (total : ℕ) → length (fresh_bitmap total) ≡ (total + 63) / 64
unfolding fresh_bitmap
length-fresh_bitmap total = ground (
  arith,
  length-set (replicate ((total + 63) / 64) full_word) ((total + 63) / 64 - 1)
      (low_bits (total % 64)),
  length-replicate ((total + 63) / 64) full_word,
)

length-low_bits : (n : ℕ) → n ≤ 64 → length (low_bits n) ≡ 64
length-low_bits n h = omega (
  arith,
  length-append (replicate n true) (replicate (64 - n) false),
  length-replicate n true,
  length-replicate (64 - n) false,
)

word_lem :
    (total w : ℕ) → w < length (fresh_bitmap total) → length (get_or (fresh_bitmap total) w []) ≡ 64
unfolding fresh_bitmap
word_lem total w h =
    let lt : w < (total + 63) / 64 = omega (arith, length-fresh_bitmap total) in
    elim (dec_lt 0 (total % 64)) [
      | no none_left ↦ rw (le→ltb 0 (total % 64) (omega arith)) (full_length w lt)
      | yes left ↦ rw (lt→ltb 0 (total % 64) left) (elim (ℕ_discrete ((total + 63) / 64 - 1) w) [
        | yes last ↦
            subst
              (λ (k : ℕ).
                length (get_or (set full ((total + 63) / 64 - 1) (low_bits (total % 64))) k [])
                ≡ 64)
              last
              (ap length (
                  get_or-set_self full ((total + 63) / 64 - 1) (low_bits (total % 64)) []
                    (omega (arith, length-replicate ((total + 63) / 64) full_word)))
                ∙ length-low_bits (total % 64) (omega arith))
        | no differ ↦
            ap length
              (get_or-set_ne full ((total + 63) / 64 - 1) w (low_bits (total % 64)) [] differ)
            ∙ full_length w lt
      ])
    ]
  where
    full : List (List Bool)
    full = replicate ((total + 63) / 64) full_word

    full_length : (w : ℕ) → w < (total + 63) / 64 → length (get_or full w []) ≡ 64
    full_length w lt = ap length (get_or-replicate ((total + 63) / 64) w full_word [] lt)

-- A create whose memory is there, with huge pages or else without, gives a valid arena in which
-- exactly its slots are free: as many as the region holds. The size of a slot must not have wrapped
-- round to 0, and the region must hold one slot and not wrap round.
pub create_lem :
    (model : Model) (total_bytes base : ℕ) (huge plain : Option ℕ)
    → (huge ≡ some base) ⊎ ((huge ≡ none) × (plain ≡ some base))
    → 0 < align_up (block_total_bytes model) 4096
    → align_up (block_total_bytes model) 4096 ≤ total_bytes
    → base + total_bytes < 2 ^ 64
    → (a : Arena) × (create model total_bytes true huge plain true ≡ some a)
      × IsValid a
      × ((slot : ℕ) → is_free a slot ≡ ltb slot a.total_slots)
      × (a.total_slots ≡ total_bytes / align_up (block_total_bytes model) 4096)
unfolding create made
create_lem model total_bytes base huge plain mapped pos fits region =
    let size = align_up (block_total_bytes model) 4096 in
    let some_slot : 0 < total_bytes / size =
      omega (arith, div-eq-sub-div {m = size} {n = total_bytes} pos fits) in
    (
      made model total_bytes base,
      elim mapped [
        | inl e ↦ rw (e, ==_of_ne (total_bytes / size) 0 (omega arith)) refl
        | inr (e, e') ↦ rw (e, e', ==_of_ne (total_bytes / size) 0 (omega arith)) refl
      ],
      record {
        slots = pos;
        region = omega (arith, div-mul-le_self total_bytes size);
        words = omega (arith, length-fresh_bitmap (total_bytes / size));
        covers = omega (arith, length-fresh_bitmap (total_bytes / size));
        hint_in = omega arith;
        word = word_lem (total_bytes / size);
        clear = λ slot h. fresh_lem (total_bytes / size) slot ∙ le→ltb slot (total_bytes / size) h;
      },
      fresh_lem (total_bytes / size),
      refl,
    )
