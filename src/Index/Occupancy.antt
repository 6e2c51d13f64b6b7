-- ===== src/Index/Occupancy.antt =====
-- How full an index gets: never fuller than its arena has slots.
use xpu_kllm.Prelude.{
  ℕ, zero, suc, ◌+◌, ◌*◌, ◌^◌, ◌≤◌, ◌<◌, ◌≡◌, ◌≢◌, refl, sym, ◌∙◌, arith, false, List, [], ◌∷◌, inl,
  inr, Bool-cases, total, ltb, lt→ltb, lt→leb, if◌then◌else◌,
}
use native.Mathlib.Decide.{ℕ_discrete}
use xpu_kllm.Index.{Entry, Index, is_empty, overfull}
use xpu_kllm.Index.Probing.{at}
use xpu_kllm.Index.Inv.{IsValid, Apart, in_use}

-- 1 for an entry in use with a slot below `n`.
abbrev in_use_below : ℕ → Entry → ℕ
in_use_below n e = if is_empty e then 0 else (if ltb e.slot_index n then 1 else 0)

Apart-tail : (e : Entry) (es : List Entry) → Apart (e ∷ es) → Apart es
Apart-tail e es h i j ne ui uj = h (suc i) (suc j) (λ q. ne (omega arith)) ui uj

-- Entries that do not name the slot `n`.
no_slot :
    (n : ℕ) (es : List Entry)
    → ((j : ℕ) → is_empty (at es j) ≡ false → (at es j).slot_index ≢ n)
    → total (in_use_below (suc n)) es ≡ total (in_use_below n) es
no_slot n [] h = refl
no_slot n (e ∷ es) h =
    let rest = no_slot n es (λ j u. h (suc j) u) in
    elim (Bool-cases (is_empty e)) [
      | inl empty ↦ rw empty (omega (arith, rest))
      | inr full ↦ let ne : e.slot_index ≢ n = h 0 full in rw full (ground (arith, ne, rest))
    ]

one_slot :
    (n : ℕ) (es : List Entry)
    → Apart es
    → total (in_use_below (suc n)) es ≤ total (in_use_below n) es + 1
one_slot n [] h = omega arith
one_slot n (e ∷ es) h =
    let rest = one_slot n es (Apart-tail e es h) in
    elim (Bool-cases (is_empty e)) [
      | inl empty ↦ rw empty (omega (arith, rest))
      | inr full ↦ elim (ℕ_discrete e.slot_index n) [
        | yes this ↦
            let others : total (in_use_below (suc n)) es ≡ total (in_use_below n) es =
              no_slot n es
                (λ j u q. h 0 (suc j) (λ z. absurd (omega arith)) full u (this ∙ sym q)) in
            rw full (ground (arith, others))
        | no other ↦ rw full (ground (arith, other, rest))
      ]
    ]

below_none : (es : List Entry) → total (in_use_below 0) es ≡ 0
below_none [] = refl
below_none (e ∷ es) = ground (arith, below_none es)

below-le : (n : ℕ) (es : List Entry) → Apart es → total (in_use_below n) es ≤ n
below-le zero es h = omega (arith, below_none es)
below-le (suc n) es h = omega (arith, one_slot n es h, below-le n es h)

all_below :
    (n : ℕ) (es : List Entry)
    → ((j : ℕ) → is_empty (at es j) ≡ false → (at es j).slot_index < n)
    → total (in_use_below n) es ≡ total in_use es
all_below n [] h = refl
all_below n (e ∷ es) h =
    let rest = all_below n es (λ j u. h (suc j) u) in
    elim (Bool-cases (is_empty e)) [
      | inl empty ↦ rw empty (omega (arith, rest))
      | inr full ↦ rw (full, lt→ltb e.slot_index n (h 0 full)) (omega (arith, rest))
    ]

-- A valid index has at most as many entries in use as its arena has slots.
pub occupied-le : {bits : ℕ} {idx : Index} → IsValid bits idx → idx.occupied ≤ idx.arena.total_slots
occupied-le {bits} {idx} v =
    let n = idx.arena.total_slots in
    omega (
      arith,
      v.counted,
      all_below n idx.entries (λ j u. (v.sound j u).0),
      below-le n idx.entries v.apart,
    )

-- An arena with fewer slots than the load factor lets the index take.
abbrev pub IsScarce : ℕ → ℕ → Type 0
IsScarce slots capacity = slots * 2 ^ 53 < 7656119366529843 * capacity

pub overfull_never :
    {bits : ℕ} {idx : Index}
    → IsValid bits idx
    → IsScarce idx.arena.total_slots idx.capacity
    → overfull idx ≡ false
unfolding overfull
overfull_never {bits} {idx} v scarce =
    let h : idx.occupied * 2 ^ 53 < 7656119366529843 * idx.capacity =
      omega (arith, occupied-le v, scarce) in
    rw (lt→leb (7656119366529843 * idx.capacity) (idx.occupied * 2 ^ 53) h) (ground arith)
