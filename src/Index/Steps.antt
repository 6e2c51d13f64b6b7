-- ===== src/Index/Steps.antt =====
-- The writes of the index keep its invariant: the release of an entry in use, the entry written by
-- an insertion, and the time of a hit.
use xpu_kllm.Prelude.{
  ℕ, ◌+◌, ◌-◌, ◌^◌, ◌<◌, ◌≡◌, ◌≢◌, refl, sym, ap, subst, ◌∙◌, arith, true, false, List, inl, inr,
  set, length, length-set, total, total-set, total-set_same,
}
use xpu_kllm.Prelude.Words.{two-pow_double_le, two-pow_pos}
use xpu_kllm.Arena.{Arena, free, slot_index, slot_ptr}
use xpu_kllm.Arena.Alloc
use xpu_kllm.Arena.Alloc.{is_free, address}
use xpu_kllm.Arena.Free.{slot_index-slot_ptr, free_lem}
use xpu_kllm.Index.{
  Entry, empty_entry, empty_slot, is_empty, Stats, Index, address_of, release, stored,
}
use xpu_kllm.Index.Probing.{at}
use xpu_kllm.Index.Inv.{IsValid, Sound, Apart, in_use, Block, entry-set, total-in_use-le}

module _ {bits : ℕ} {idx : Index} (v : IsValid bits idx) (pos : ℕ)
    (lt : pos < length idx.entries) where
  pub occupied-lt : idx.occupied < 2 ^ 32
  occupied-lt = omega (
    arith,
    v.counted,
    v.size,
    v.power,
    total-in_use-le idx.entries,
    two-pow_double_le bits v.small,
    two-pow_pos bits,
  )

  -- The entries of another position keep being apart from an entry whose slot no entry names.
  Apart-set :
      (e' : Entry)
      → ((j : ℕ)
          → pos ≢ j
          → is_empty (at idx.entries j) ≡ false
          → is_empty e' ≡ false
          → (at idx.entries j).slot_index ≢ e'.slot_index)
      → Apart (set idx.entries pos e')
  Apart-set e' new i j ne ui uj = elim (entry-set v pos e' i lt) [
    | inl (hi, ei) ↦ elim (entry-set v pos e' j lt) [
      | inl (hj, ej) ↦ absurd (ne (sym hi ∙ hj))
      | inr (hj, ej) ↦ λ q.
          new j hj (ap is_empty (sym ej) ∙ uj) (ap is_empty (sym ei) ∙ ui) (
            ap (λ (e : Entry). e.slot_index) (sym ej) ∙ sym q ∙ ap (λ (e : Entry). e.slot_index) ei)
    ]
    | inr (hi, ei) ↦ elim (entry-set v pos e' j lt) [
      | inl (hj, ej) ↦ λ q.
          new i hi (ap is_empty (sym ei) ∙ ui) (ap is_empty (sym ej) ∙ uj)
            (ap (λ (e : Entry). e.slot_index) (sym ei) ∙ q ∙ ap (λ (e : Entry). e.slot_index) ej)
      | inr (hj, ej) ↦ λ q.
          v.apart i j ne (ap is_empty (sym ei) ∙ ui) (ap is_empty (sym ej) ∙ uj)
            (ap (λ (e : Entry). e.slot_index) (sym ei) ∙ q ∙ ap (λ (e : Entry). e.slot_index) ej)
    ]
  ]

  -- Every entry is sound after a write, if the new one is and the others are in the new arena.
  Sound-set :
      (e' : Entry) (a' : Arena)
      → Sound a' e'
      → ((j : ℕ) → pos ≢ j → Sound a' (at idx.entries j))
      → (j : ℕ) → Sound a' (at (set idx.entries pos e') j)
  Sound-set e' a' here there j = elim (entry-set v pos e' j lt) [
    | inl (hj, ej) ↦ subst (Sound a') (sym ej) here
    | inr (hj, ej) ↦ subst (Sound a') (sym ej) (there j hj)
  ]

  -- The release of an entry in use.
  pub release-IsValid : is_empty (at idx.entries pos) ≡ false → IsValid bits (release idx pos)
  unfolding release free
  release-IsValid used =
      let e = at idx.entries pos in
      let e' : Entry = record e { slot_index = empty_slot } in
      let (inside, was, early) = v.sound pos used in
      let (ptr, index) =
        slot_index-slot_ptr idx.arena e.slot_index v.arena inside
          (omega (arith, v.slots, inside)) in
      let this : address_of (slot_ptr idx.arena e.slot_index) ≡ address idx.arena e.slot_index =
        ap address_of ptr in
      let a' = free idx.arena (address_of (slot_ptr idx.arena e.slot_index)) in
      let (va, freed, kept) = free_lem idx.arena e.slot_index v.arena inside in
      let same : free idx.arena (address idx.arena e.slot_index) ≡ a' =
        ap (free idx.arena) (sym this) in
      let counts : total in_use (set idx.entries pos e') + in_use e
          ≡ total in_use idx.entries + in_use e' =
        total-set in_use idx.entries pos e' empty_entry lt in
      let one : in_use e ≡ 1 = ground (arith, used) in
      record {
        small = v.small;
        power = v.power;
        masked = v.masked;
        size = length-set idx.entries pos e' ∙ v.size;
        counted = omega (arith, counts, one, v.counted, occupied-lt);
        arena = subst Alloc.IsValid same va;
        slots = v.slots;
        sound =
            Sound-set e' a' (λ u. absurd (ground (arith, u)))
              (λ j ne u.
                let (ij, tj, sj) = v.sound j u in
                (
                  ij,
                  ap (λ (a : Arena). is_free a (at idx.entries j).slot_index) (sym same)
                      ∙ kept (at idx.entries j).slot_index (v.apart pos j ne used u)
                      ∙ tj,
                  sj,
                ));
        apart = Apart-set e' (λ j ne u w. absurd (ground (arith, w)));
      }

  -- The entry that an insertion writes at an empty position.
  pub stored-IsValid :
      (p : ℕ) (a' : Arena) (h : List ℕ) (now : ℕ)
      → Block idx.arena p a'
      → is_empty (at idx.entries pos) ≡ true
      → now < 2 ^ 64 - 1
      → IsValid bits (stored idx pos a' h (slot_index a' p) now)
  unfolding stored
  stored-IsValid p a' h now b vacant early =
      let slot = slot_index a' p in
      let e' : Entry = record { hash = h; slot_index = slot; flags = 0; last_access_ns = now } in
      let counts : total in_use (set idx.entries pos e') + in_use (at idx.entries pos)
          ≡ total in_use idx.entries + in_use e' =
        total-set in_use idx.entries pos e' empty_entry lt in
      let none_here : in_use (at idx.entries pos) ≡ 0 = ground (arith, vacant) in
      let real : is_empty e' ≡ false = ground (arith, b.inside, v.slots) in
      let one : in_use e' ≡ 1 = ground (arith, real) in
      let other : (j : ℕ)
          → is_empty (at idx.entries j) ≡ false
          → slot ≢ (at idx.entries j).slot_index =
        λ j u q.
          let (ij, tj, sj) = v.sound j u in
          let clash : true ≡ false = sym b.was_free ∙ ap (is_free idx.arena) q ∙ tj in cc in
      record {
        small = v.small;
        power = v.power;
        masked = v.masked;
        size = length-set idx.entries pos e' ∙ v.size;
        counted = omega (
          arith,
          counts,
          one,
          none_here,
          v.counted,
          total-in_use-le (set idx.entries pos e'),
          length-set idx.entries pos e',
          v.size,
          v.power,
          two-pow_double_le bits v.small,
          two-pow_pos bits,
        );
        arena = b.valid;
        slots = omega (arith, b.slots, v.slots);
        sound =
            Sound-set e' a' (λ u. (omega (arith, b.inside, b.slots), b.taken, early))
              (λ j ne u.
                let (ij, tj, sj) = v.sound j u in
                (
                  omega (arith, ij, b.slots),
                  b.others (at idx.entries j).slot_index (other j u) ∙ tj,
                  sj,
                ));
        apart = Apart-set e' (λ j ne u w q. other j u (sym q));
      }

  -- The time of a hit.
  pub touched-IsValid :
      (now : ℕ) (stats : Stats)
      → now < 2 ^ 64 - 1
      → IsValid bits (record idx {
        entries = set idx.entries pos (record (at idx.entries pos) { last_access_ns = now });
        stats = stats;
      })
  touched-IsValid now stats early =
      let e' : Entry = record (at idx.entries pos) { last_access_ns = now } in
      record {
        small = v.small;
        power = v.power;
        masked = v.masked;
        size = length-set idx.entries pos e' ∙ v.size;
        counted = v.counted ∙ sym (total-set_same in_use idx.entries pos e' empty_entry refl);
        arena = v.arena;
        slots = v.slots;
        sound =
            Sound-set e' idx.arena (λ u. let (i, t, s) = v.sound pos u in (i, t, early))
              (λ j ne. v.sound j);
        apart = Apart-set e' (λ j ne u w q. v.apart pos j ne w u (sym q));
      }

-- Another arena with the same slots free.
pub moved-IsValid :
    {bits : ℕ} {idx : Index} (a' : Arena)
    → IsValid bits idx
    → Alloc.IsValid a'
    → a'.total_slots ≡ idx.arena.total_slots
    → ((j : ℕ) → is_free a' j ≡ is_free idx.arena j)
    → IsValid bits (record idx { arena = a' })
moved-IsValid {bits} {idx} a' v va et same = record {
  small = v.small;
  power = v.power;
  masked = v.masked;
  size = v.size;
  counted = v.counted;
  arena = va;
  slots = omega (arith, et, v.slots);
  sound = λ j u.
      let (i, t, s) = v.sound j u in
      (omega (arith, i, et), same (at idx.entries j).slot_index ∙ t, s);
  apart = v.apart;
}

-- Other statistics.
pub recounted-IsValid :
    {bits : ℕ} {idx : Index} (stats : Stats)
    → IsValid bits idx
    → IsValid bits (record idx { stats = stats })
recounted-IsValid stats v = record {
  small = v.small;
  power = v.power;
  masked = v.masked;
  size = v.size;
  counted = v.counted;
  arena = v.arena;
  slots = v.slots;
  sound = v.sound;
  apart = v.apart;
}
