-- ===== src/Arena/Free.antt =====
-- Releases and slot numbers: the inverse of an allocation, and of a slot's address.
use xpu_kllm.Prelude.{
  ℕ, ◌+◌, ◌-◌, ◌*◌, ◌/◌, ◌%◌, ◌^◌, ◌≤◌, ◌<◌, ◌≡◌, ◌≢◌, refl, sym, ap, ap₂, subst, ◌∙◌, arith, true,
  false, ◌⊎◌, Option, none, some, inl, inr, ltb, lt→leb, if◌then◌else◌,
}
use native.Mathlib.Nat.{mod-eq_of_lt, mul-div_cancel}
use native.Mathlib.Decide.{ℕ_discrete}
use xpu_kllm.Prelude.Words.{sub64}
use xpu_kllm.Arena.{Arena, alloc, free, slot_index, slot_ptr}
use xpu_kllm.Arena.Alloc.{
  is_free, IsValid, HasTaken, address, written, address_small, slot_address, written_bit, kept_bits,
  written-IsValid, alloc_lem,
}

-- The slot of an address.
slot_of :
    (a : Arena) (slot : ℕ)
    → IsValid a
    → slot < a.total_slots
    → sub64 (address a slot) a.base / a.slot_size ≡ slot
slot_of a slot va lt =
    let small : address a slot < 2 ^ 64 = address_small a slot va lt in
    let shift : (address a slot + 2 ^ 64 - a.base) % 2 ^ 64 ≡ slot * a.slot_size = omega arith in
    ap (λ (k : ℕ). k / a.slot_size) shift ∙ mul-div_cancel slot va.slots

lower : (x h n : ℕ) → h ≤ n → (if ltb x h then x else h) ≤ n
lower x h n le = ground arith

-- In a valid arena the release of a slot's address marks that slot free and changes no other one,
-- and the arena stays valid.
pub free_lem :
    (a : Arena) (slot : ℕ)
    → IsValid a
    → slot < a.total_slots
    → let a' = free a (address a slot) in
      IsValid a'
      × (is_free a' slot ≡ true)
      × ((other : ℕ) → slot ≢ other → is_free a' other ≡ is_free a other)
unfolding free
free_lem a slot va lt =
    let a' = free a (address a slot) in
    let eq : a'.bitmap ≡ written a slot true =
      ap (λ (k : ℕ). written a k true) (slot_of a slot va lt) in
    (
      written-IsValid true a a' slot va lt eq refl refl refl
          (lower (sub64 (address a slot) a.base / a.slot_size / 64) a.hint _ va.hint_in),
      written_bit true a a' slot va lt eq,
      kept_bits true a a' slot va lt eq,
    )

address_in : Option ℕ → ℕ
address_in none = 0
address_in (some k) = k

-- A result of `alloc` with its arena.
module _ (a : Arena) (va : IsValid a) (p : Option ℕ) (a' : Arena) (e : alloc a ≡ (p, a')) where
  outcome :
      IsValid a' × (HasTaken a p a' ⊎ ((p ≡ none) × (a' ≡ a) × ((j : ℕ) → is_free a j ≡ false)))
  outcome =
      subst
        (λ (q : Option ℕ × Arena).
          IsValid q.1
          × (HasTaken a q.0 q.1 ⊎ ((q.0 ≡ none) × (q.1 ≡ a) × ((j : ℕ) → is_free a j ≡ false))))
        e (alloc_lem a va)

  pub alloc_none : p ≡ none → a' ≡ a
  alloc_none null = elim outcome.1 [
    | inl (block, lt, at, was, is, kept, eb, es, et) ↦ absurd (ground arith)
    | inr (none_left, same, full) ↦ same
  ]

  pub alloc_some :
      (k : ℕ)
      → p ≡ some k
      → (block : ℕ) × (block < a'.total_slots)
        × (k ≡ address a' block)
        × IsValid a'
        × (a'.total_slots ≡ a.total_slots)
        × (is_free a block ≡ true)
        × ((other : ℕ) → block ≢ other → is_free a' other ≡ is_free a other)
        × (is_free a' block ≡ false)
        × (a'.base ≡ a.base)
        × (a'.slot_size ≡ a.slot_size)
  unfolding address_in
  alloc_some k given = elim outcome.1 [
    | inl (block, lt, at, was, is, kept, eb, es, et) ↦ (
      block,
      omega (arith, et, lt),
      ap address_in (sym given ∙ at) ∙ sym (ap₂ (λ (b s : ℕ). b + block * s) eb es),
      outcome.0,
      et,
      was,
      kept,
      is,
      eb,
      es,
    )
    | inr (none_left, same, full) ↦ absurd (ground arith)
  ]

-- A block that a valid arena allocates, released at once, leaves the same slots free as before.
pub free-alloc :
    (a : Arena) (p : ℕ) (a' : Arena)
    → IsValid a
    → alloc a ≡ (some p, a')
    → (slot : ℕ) → is_free (free a' p) slot ≡ is_free a slot
free-alloc a p a' va e slot =
    let (block, lt, at, va', et, was, kept, is, eb, es) = alloc_some a va (some p) a' e p refl in
    let (va2, free_again, others) = free_lem a' block va' lt in
    ap (λ (k : ℕ). is_free (free a' k) slot) at ∙ elim (ℕ_discrete block slot) [
      | yes this ↦
          ap (is_free (free a' (address a' block))) (sym this)
          ∙ free_again
          ∙ sym was
          ∙ ap (is_free a) this
      | no other ↦ others slot other ∙ kept slot other
    ]

-- In a valid arena the address of a slot's number is the slot's address, and the number of that
-- address is the slot's number, if it is below 2 ^ 32.
pub slot_index-slot_ptr :
    (a : Arena) (slot : ℕ)
    → IsValid a
    → slot < a.total_slots
    → slot < 2 ^ 32
    → (slot_ptr a slot ≡ some (address a slot)) × (slot_index a (address a slot) ≡ slot)
unfolding slot_ptr slot_index
slot_index-slot_ptr a slot va lt h = (
  rw (lt→leb a.total_slots slot lt) (ap some (slot_address a slot va lt)),
  ap (λ (k : ℕ). k % 2 ^ 32) (slot_of a slot va lt) ∙ mod-eq_of_lt h,
)
