-- ===== src/Index/Inv.antt =====
-- The representation invariant of the index, and the parts of an insertion under it.
use xpu_kllm.Prelude.{
  ℕ, zero, suc, ◌+◌, ◌-◌, ◌%◌, ◌^◌, ◌≤◌, ◌<◌, ◌≡◌, ◌≢◌, refl, sym, ap, subst, ◌∙◌, arith, true,
  false, List, [], ◌∷◌, some, inl, inr, Bool-cases, set, get_or-set_self, get_or-set_ne, length,
  ◌⊎◌, total, if◌then◌else◌,
}
use native.Mathlib.Decide.{ℕ_discrete}
use native.Mathlib.Nat.{mod-lt}
use xpu_kllm.Prelude.Words.{add32, bit_and_mask, two-pow_pos}
use xpu_kllm.Arena.{Arena, alloc, slot_index, slot_ptr}
use xpu_kllm.Arena.Alloc
use xpu_kllm.Arena.Alloc.{is_free, HasTaken, address, alloc_lem}
use xpu_kllm.Arena.Free.{slot_index-slot_ptr, alloc_some}
use xpu_kllm.Index.{Entry, empty_entry, is_empty, Index, position, first_empty}
use xpu_kllm.Index.Probing.{at}

-- 1 for an entry in use.
abbrev pub in_use : Entry → ℕ
in_use e = if is_empty e then 0 else 1

-- An entry in use names a slot of the arena that is taken, and was used before the end of time.
abbrev pub Sound : Arena → Entry → Type 0
Sound a e =
    is_empty e ≡ false
    → (e.slot_index < a.total_slots)
      × (is_free a e.slot_index ≡ false)
      × (e.last_access_ns < 2 ^ 64 - 1)

-- Two entries in use name different slots.
abbrev pub Apart : List Entry → Type 0
Apart es =
    (i j : ℕ)
    → i ≢ j
    → is_empty (at es i) ≡ false
    → is_empty (at es j) ≡ false
    → (at es i).slot_index ≢ (at es j).slot_index

pub record IsValid (bits : ℕ) (idx : Index) : Type 0 where
  pub small : bits < 32
  pub power : idx.capacity ≡ 2 ^ bits
  pub masked : idx.mask ≡ 2 ^ bits - 1
  pub size : length idx.entries ≡ idx.capacity
  pub counted : idx.occupied ≡ total in_use idx.entries
  pub arena : Alloc.IsValid idx.arena
  pub slots : idx.arena.total_slots < 2 ^ 32
  pub sound : (i : ℕ) → Sound idx.arena (at idx.entries i)
  pub apart : Apart idx.entries

pub total-in_use-le : (es : List Entry) → total in_use es ≤ length es
total-in_use-le [] = omega arith
total-in_use-le (e ∷ es) = ground (arith, total-in_use-le es)

module _ {bits : ℕ} {idx : Index} (v : IsValid bits idx) where
  -- Positions lie in the table, and are the sums modulo its size.
  pub position_lem :
      (b i : ℕ) → b < 2 ^ 32 → i < 2 ^ 32 → position idx.mask b i ≡ (b + i) % 2 ^ 32 % idx.capacity
  position_lem b i hb hi = rw (v.masked, v.power) (bit_and_mask bits (add32 b i))

  pub position-lt : (b i : ℕ) → position idx.mask b i < length idx.entries
  position-lt b i =
      rw (v.masked, v.size, v.power, bit_and_mask bits (add32 b i))
        (mod-lt (add32 b i) (two-pow_pos bits))

  pub first_empty-lt :
      (b i n p : ℕ) → first_empty idx.entries idx.mask b i n ≡ some p → p < length idx.entries
  unfolding first_empty
  first_empty-lt b i zero p e = cc
  first_empty-lt b i (suc n) p e =
      elim (Bool-cases (is_empty (at idx.entries (position idx.mask b i)))) [
        | inl stop ↦
            let here : position idx.mask b i ≡ p = ground (arith, stop) in
            subst (λ (k : ℕ). k < length idx.entries) here (position-lt b i)
        | inr go ↦ first_empty-lt b (i + 1) n p (ground (arith, go))
      ]

  -- The entry at `p` becomes `e'`, at the other positions nothing changes.
  pub entry-set :
      (p : ℕ) (e' : Entry) (j : ℕ)
      → p < length idx.entries
      → ((p ≡ j) × (at (set idx.entries p e') j ≡ e'))
        ⊎ ((p ≢ j) × (at (set idx.entries p e') j ≡ at idx.entries j))
  entry-set p e' j lt = elim (ℕ_discrete p j) [
    | yes same ↦ inl (
      same,
      ap (at (set idx.entries p e')) (sym same) ∙ get_or-set_self idx.entries p e' empty_entry lt,
    )
    | no differ ↦ inr (differ, get_or-set_ne idx.entries p j e' empty_entry differ)
  ]

-- What an allocation of the arena gives an insertion.
pub record Block (a : Arena) (p : ℕ) (a' : Arena) : Type 0 where
  pub valid : Alloc.IsValid a'
  pub inside : slot_index a' p < a.total_slots
  pub slots : a'.total_slots ≡ a.total_slots
  pub base : a'.base ≡ a.base
  pub size : a'.slot_size ≡ a.slot_size
  pub pointer : slot_ptr a' (slot_index a' p) ≡ some p
  pub was_free : is_free a (slot_index a' p) ≡ true
  pub taken : is_free a' (slot_index a' p) ≡ false
  pub others : (j : ℕ) → slot_index a' p ≢ j → is_free a' j ≡ is_free a j

pub block_lem :
    (a : Arena) (p : ℕ) (a' : Arena)
    → Alloc.IsValid a
    → a.total_slots < 2 ^ 32
    → alloc a ≡ (some p, a')
    → Block a p a'
block_lem a p a' va small e =
    let (block, lt, at', va', et, was, kept, is, eb, es) = alloc_some a va (some p) a' e p refl in
    let (ptr, index) = slot_index-slot_ptr a' block va' lt (omega (arith, small)) in
    let same : slot_index a' p ≡ block = ap (slot_index a') at' ∙ index in
    record {
      valid = va';
      inside = omega (arith, same);
      slots = et;
      base = eb;
      size = es;
      pointer = ap (slot_ptr a') same ∙ ptr ∙ ap some (sym at');
      was_free = ap (is_free a) same ∙ was;
      taken = ap (is_free a') same ∙ is;
      others = λ j ne. kept j (λ q. ne (same ∙ q));
    }
