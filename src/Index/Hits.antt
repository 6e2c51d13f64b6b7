-- ===== src/Index/Hits.antt =====
-- What lookups see: the block of an insertion, and a block of its own for every key.
use xpu_kllm.Prelude.{
  ℕ, zero, suc, ◌+◌, ◌-◌, ◌/◌, ◌^◌, ◌<◌, ◌≡◌, ◌≢◌, refl, sym, ap, ap₂, ◌∙◌, arith, true, List, [],
  ◌∷◌, none, some, inl, inr, Bool-cases, length, set, get_or-set_self, get_or-set_ne,
}
use native.Mathlib.Nat.{mul-div_cancel}
use native.Mathlib.Decide.{ℕ_discrete}
use xpu_kllm.Arena.Free.{slot_index-slot_ptr}
use xpu_kllm.Arena.Alloc.{address}
use xpu_kllm.Index.{
  Entry, Index, is_empty, empty_slot, empty_entry, overfull, hash_eq, hash_to_bucket, Probe, found,
  vacant, exhausted, position, probe, lookup, release, find_lru_entry, make_room, insert,
}
use xpu_kllm.Index.Probing.{at, found_inversion}
use xpu_kllm.Index.Inv.{IsValid}
use xpu_kllm.Index.Victim.{find_lru_entry_lem, overfull-occupied, make_room-IsValid}
use xpu_kllm.Index.Insert.{walk, lookup_found, lookup-insert_block}

-- A walk that ends at a key after an entry was emptied ends there also before.
pub found-release :
    (entries : List Entry) (m p : ℕ) (e' : Entry)
    → p < length entries
    → is_empty e' ≡ true
    → (h : List ℕ) (b i n q : ℕ) → probe (set entries p e') m h b i n ≡ found q
    → probe entries m h b i n ≡ found q
unfolding probe
found-release entries m p e' lt empty h b i zero q e = cc
found-release entries m p e' lt empty h b i (suc n) q e = elim (ℕ_discrete p (position m b i)) [
  | yes same ↦
      let new : at (set entries p e') (position m b i) ≡ e' =
        ap (at (set entries p e')) (sym same) ∙ get_or-set_self entries p e' empty_entry lt in
      let stop : is_empty (at (set entries p e') (position m b i)) ≡ true =
        ap is_empty new ∙ empty in
      absurd (ground (arith, stop))
  | no differ ↦
      let old : at (set entries p e') (position m b i) ≡ at entries (position m b i) =
        get_or-set_ne entries p (position m b i) e' empty_entry differ in
      ground (
        arith,
        ap is_empty old,
        ap (λ (x : Entry). hash_eq x.hash h) old,
        found-release entries m p e' lt empty h b (i + 1) n q,
      )
]

-- The pointer of a hit.
pub lookup_hit :
    {bits : ℕ} {idx : Index}
    → IsValid bits idx
    → (h : List ℕ) (now q : ℕ) → walk idx h ≡ found q
    → (lookup idx h now).0 ≡ some (address idx.arena (at idx.entries q).slot_index)
lookup_hit {bits} {idx} v h now q e =
    let (used, key) =
      found_inversion idx.entries idx.mask h (hash_to_bucket h idx.mask) 0 idx.capacity q e in
    let (inside, taken, early) = v.sound q used in
    lookup_found idx h now q e
    ∙ (slot_index-slot_ptr idx.arena (at idx.entries q).slot_index v.arena inside
        (omega (arith, v.slots))).0

make_room-absent :
    {bits : ℕ} {idx : Index}
    → IsValid bits idx
    → (h : List ℕ) → ((q : ℕ) → walk idx h ≢ found q)
    → (q : ℕ) → walk (make_room idx) h ≢ found q
unfolding make_room release
make_room-absent {bits} {idx} v h absent = elim (Bool-cases (overfull idx)) [
  | inr fits ↦ rw fits absent
  | inl full ↦
      let (lt, used, least) = find_lru_entry_lem bits idx v (overfull-occupied idx full) in
      let pos = find_lru_entry idx in
      rw full (λ q e. absent q (
        found-release idx.entries idx.mask pos
          (record (at idx.entries pos) { slot_index = empty_slot }) lt refl h
          (hash_to_bucket h idx.mask) 0 idx.capacity q e))
]

-- In a valid index an insertion of a key that a lookup misses gives a block that lookups of the
-- key find, as long as the time of the insertion is below 2 ^ 64 - 1.
pub lookup-insert :
    (bits : ℕ) (idx : Index) (h : List ℕ) (before now later p : ℕ)
    → IsValid bits idx
    → now < 2 ^ 64 - 1
    → (lookup idx h before).0 ≡ none
    → (insert idx h now).0 ≡ some p
    → (lookup (insert idx h now).1 h later).0 ≡ some p
unfolding insert
lookup-insert bits idx h before now later p v early missed given =
    lookup-insert_block (make_room-IsValid v) h now later p early
      (make_room-absent v h (λ q e. absurd (ground (arith, lookup_hit v h before q e)))) given

hash_eq_sound : (g h : List ℕ) → hash_eq g h ≡ true → g ≡ h
unfolding hash_eq
hash_eq_sound [] [] e = refl
hash_eq_sound [] (y ∷ ys) e = cc
hash_eq_sound (x ∷ xs) [] e = cc
hash_eq_sound (x ∷ xs) (y ∷ ys) e =
    let first : x ≡ y = ground arith in
    ap₂ (λ (a : ℕ) (r : List ℕ). a ∷ r) first (hash_eq_sound xs ys (ground arith))

-- In a valid index the entry of a hit has the key.
hit_key : (idx : Index) (h : List ℕ) (q : ℕ) → walk idx h ≡ found q → (at idx.entries q).hash ≡ h
hit_key idx h q e =
    hash_eq_sound (at idx.entries q).hash h
      (found_inversion idx.entries idx.mask h (hash_to_bucket h idx.mask) 0 idx.capacity q e).1

pub lookup-some :
    (idx : Index) (h : List ℕ) (now p : ℕ)
    → (lookup idx h now).0 ≡ some p
    → (q : ℕ) × (walk idx h ≡ found q)
unfolding lookup
lookup-some idx h now p e =
    elim (walk idx h) as (λ (w : Probe). walk idx h ≡ w → (q : ℕ) × (walk idx h ≡ found q)) [
      | found q ↦ λ w. (q, w)
      | vacant q ↦ λ w. absurd (ground (arith, w))
      | exhausted ↦ λ w. absurd (ground (arith, w))
    ]
      refl

-- In a valid index two keys never share a block: lookups that give the same address are lookups
-- of the same key.
pub lookup_apart :
    (bits : ℕ) (idx : Index) (g h : List ℕ) (now later p : ℕ)
    → IsValid bits idx
    → (lookup idx g now).0 ≡ some p
    → (lookup idx h later).0 ≡ some p
    → g ≡ h
lookup_apart bits idx g h now later p v eg eh =
    let (i, wi) = lookup-some idx g now p eg in
    let (j, wj) = lookup-some idx h later p eh in
    let (ui, ki) =
      found_inversion idx.entries idx.mask g (hash_to_bucket g idx.mask) 0 idx.capacity i wi in
    let (uj, kj) =
      found_inversion idx.entries idx.mask h (hash_to_bucket h idx.mask) 0 idx.capacity j wj in
    let same : address idx.arena (at idx.entries i).slot_index
        ≡ address idx.arena (at idx.entries j).slot_index =
      ground (arith, lookup_hit v g now i wi, lookup_hit v h later j wj) in
    elim (ℕ_discrete i j) [
      | yes here ↦
          sym (hit_key idx g i wi)
          ∙ ap (λ (k : ℕ). (at idx.entries k).hash) here
          ∙ hit_key idx h j wj
      | no there ↦ absurd (
          v.apart i j there ui uj (
            sym (mul-div_cancel (at idx.entries i).slot_index v.arena.slots)
            ∙ ap (λ (k : ℕ). k / idx.arena.slot_size) (omega (arith, same))
            ∙ mul-div_cancel (at idx.entries j).slot_index v.arena.slots))
    ]
