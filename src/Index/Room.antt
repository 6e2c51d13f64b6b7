-- ===== src/Index/Room.antt =====
-- Room for an insertion: a table that is not full has an empty entry on every walk.
use xpu_kllm.Prelude.{
  ℕ, zero, suc, ◌+◌, ◌-◌, ◌*◌, ◌/◌, ◌%◌, ◌^◌, ◌≤◌, ◌<◌, ◌≡◌, ◌≢◌, ◌↔◌, refl, ap, subst, ◌∙◌, arith,
  true, false, List, Option, none, inl, inr, Bool-cases, total-eq-length,
}
use native.Mathlib.Nat.{mod-lt, mod-eq_of_lt, add-mod-mod, mul-add-mod_self_left, div-add-mod}
use xpu_kllm.Prelude.Words.{mask32, two-pow_pos, two-pow_double_le}
use xpu_kllm.Arena.{Arena, alloc, free}
use xpu_kllm.Arena.Alloc
use xpu_kllm.Arena.Free.{slot_index-slot_ptr, free_lem}
use xpu_kllm.Arena.Alloc.{is_free, alloc_lem}
use xpu_kllm.Index.{
  Entry, Index, address_of, is_empty, empty_entry, overfull, hash_to_bucket, position, first_empty,
  release, find_lru_entry, make_room, insert,
}
use xpu_kllm.Index.Probing.{at}
use xpu_kllm.Index.Inv.{IsValid, in_use, total-in_use-le}
use xpu_kllm.Index.Victim.{make_room-IsValid, find_lru_entry_lem, overfull-occupied}
use xpu_kllm.Index.Insert.{place, insert_block_cases}

-- A walk that finds no empty entry has passed entries in use only.
passed :
    (entries : List Entry) (m b i n k : ℕ)
    → first_empty entries m b i n ≡ none
    → k < n
    → is_empty (at entries (position m b (i + k))) ≡ false
unfolding first_empty
passed entries m b i zero k e lt = absurd (omega arith)
passed entries m b i (suc n) zero e lt = ground arith
passed entries m b i (suc n) (suc k) e lt =
    let rest : is_empty (at entries (position m b (i + 1 + k))) ≡ false =
      passed entries m b (i + 1) n k (ground arith) (omega arith) in
    subst (λ (x : ℕ). is_empty (at entries (position m b x)) ≡ false) (omega arith) rest

-- Every residue is reached from every start.
reached : (c b j : ℕ) → j < c → (b + (j + (c - b % c)) % c) % c ≡ j
reached c b j lt =
    let low : b % c < c = mod-lt b (omega arith) in
    let split : c * (b / c) + b % c ≡ b = div-add-mod b c in
    let whole : b + (j + (c - b % c)) ≡ c * (b / c + 1) + j = grind (arith, low, split) in
    add-mod-mod b (j + (c - b % c)) c
    ∙ ap (λ (x : ℕ). x % c) whole
    ∙ mul-add-mod_self_left c (b / c + 1) j
    ∙ mod-eq_of_lt lt

-- A table without room on a walk is full.
full_table :
    {bits : ℕ} {idx : Index}
    → IsValid bits idx
    → (h : List ℕ) → place idx h ≡ none
    → idx.occupied ≡ idx.capacity
full_table {bits} {idx} v h e =
    let b = hash_to_bucket h idx.mask in
    let c = 2 ^ bits in
    let pos_c : 0 < c = two-pow_pos bits in
    v.counted
    ∙ total-eq-length in_use empty_entry idx.entries (λ j lt.
      let i = (j + (c - b % c)) % c in
      let small : i < c = mod-lt (j + (c - b % c)) pos_c in
      let there : position idx.mask b (0 + i) ≡ j =
        ap (λ (m : ℕ). position m b (0 + i)) v.masked
        ∙ mask32 bits (b + (0 + i)) (omega (arith, v.small))
        ∙ ap (λ (x : ℕ). (b + x) % c) (omega arith)
        ∙ reached c b j (omega (arith, lt, v.size, v.power)) in
      let used : is_empty (at idx.entries j) ≡ false =
        subst (λ (x : ℕ). is_empty (at idx.entries x) ≡ false) there
          (passed idx.entries idx.mask b 0 idx.capacity i e (omega (arith, small, v.power))) in
      rw used refl)
    ∙ v.size

module _ {bits : ℕ} {idx : Index} (v : IsValid bits idx) where
  -- An eviction by age leaves room.
  make_room_lem : (make_room idx).occupied < idx.capacity
  unfolding make_room release overfull
  make_room_lem =
      let positive : 0 < idx.capacity = omega (arith, v.power, two-pow_pos bits) in
      let bound : idx.occupied ≤ idx.capacity =
        omega (arith, v.counted, v.size, total-in_use-le idx.entries) in
      let word : idx.capacity < 2 ^ 32 =
        omega (arith, v.power, two-pow_double_le bits v.small, two-pow_pos bits) in
      elim (Bool-cases (overfull idx)) [
        | inl full ↦ rw full (omega (arith, overfull-occupied idx full))
        | inr fits ↦ rw fits (ground (arith, positive, fits))
      ]

  make_room_capacity : (make_room idx).capacity ≡ idx.capacity
  unfolding make_room release
  make_room_capacity = elim (Bool-cases (overfull idx)) [
    | inl full ↦ rw full refl
    | inr fits ↦ rw fits refl
  ]

  -- Behind the eviction there is always a place.
  place-make_room : (h : List ℕ) → place (make_room idx) h ≢ none
  place-make_room h e =
      omega (arith, full_table (make_room-IsValid v) h e, make_room_lem, make_room_capacity)

  -- The slot of an entry released is free.
  release-is_free :
      (pos : ℕ)
      → is_empty (at idx.entries pos) ≡ false
      → is_free (release idx pos).arena (at idx.entries pos).slot_index ≡ true
  unfolding release
  release-is_free pos used =
      let slot = (at idx.entries pos).slot_index in
      let (inside, was, early) = v.sound pos used in
      let (ptr, index) =
        slot_index-slot_ptr idx.arena slot v.arena inside (omega (arith, v.slots, inside)) in
      let (va, freed, kept) = free_lem idx.arena slot v.arena inside in
      ap (λ (o : Option ℕ). is_free (free idx.arena (address_of o)) slot) ptr ∙ freed

  -- An arena that is full behind the eviction was full before, and nothing was evicted.
  full_before :
      ((slot : ℕ) → is_free (make_room idx).arena slot ≡ false)
      → (overfull idx ≡ false) × ((slot : ℕ) → is_free idx.arena slot ≡ false)
  unfolding make_room
  full_before full = elim (Bool-cases (overfull idx)) [
    | inl over ↦
        let pos = find_lru_entry idx in
        let (lt, used, least) = find_lru_entry_lem bits idx v (overfull-occupied idx over) in
        let freed : is_free (make_room idx).arena (at idx.entries pos).slot_index ≡ true =
          rw over (release-is_free pos used) in
        absurd (ground (arith, full (at idx.entries pos).slot_index))
    | inr fits ↦ (fits, λ slot. rw fits at (full slot))
  ]

-- The arena gives no block exactly when no slot is free.
alloc-none_iff :
    (a : Arena) → Alloc.IsValid a → ((alloc a).0 ≡ none) ↔ ((slot : ℕ) → is_free a slot ≡ false)
alloc-none_iff a va = elim (alloc_lem a va).1 [
  | inl (block, lt, at', was, is, kept, eb, es, et) ↦
      (λ e. absurd (ground (arith, at')), λ full. absurd (ground (arith, full block)))
  | inr (null, same, full) ↦ (λ e. full, λ f. null)
]

-- In a valid index an insertion fails exactly when the index is not overfull, so that nothing is
-- evicted, and no slot of the arena is free.
pub insert-none :
    (bits : ℕ) (idx : Index) (h : List ℕ) (now : ℕ)
    → IsValid bits idx
    → ((insert idx h now).0 ≡ none)
      ↔ ((overfull idx ≡ false) × ((slot : ℕ) → is_free idx.arena slot ≡ false))
unfolding insert make_room
insert-none bits idx h now v = elim (insert_block_cases (make_room idx) h now) [
  | inl (e, r) ↦ (
    λ given. full_before v ((alloc-none_iff (make_room idx).arena (make_room-IsValid v).arena).0 e),
    λ state. ap (λ (q : Option ℕ × Index). q.0) r,
  )
  | inr (p, e, inl (pos, w, r)) ↦ (
    λ given. absurd (ground (arith, r)),
    λ state.
        let (fits, full) = state in
        let same : make_room idx ≡ idx = rw (fits, make_room) refl in
        let null : (alloc (make_room idx).arena).0 ≡ none =
          (alloc-none_iff (make_room idx).arena (make_room-IsValid v).arena).1
            (λ slot. ap (λ (i : Index). is_free i.arena slot) same ∙ full slot) in
        absurd (ground (arith, null, e)),
  )
  | inr (p, e, inr (w, r)) ↦ absurd (place-make_room v h w)
]
