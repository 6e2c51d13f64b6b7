-- ===== src/Index/Runs.antt =====
-- Sequences of operations on an index, from its creation on.
use xpu_kllm.Prelude.{
  ℕ, zero, suc, ◌+◌, ◌-◌, ◌^◌, ◌≤◌, ◌<◌, bit_and, ◌≡◌, refl, sym, ap, ◌∙◌, arith, List, some,
  length, replicate, length-replicate, total,
}
use native.Mathlib.Nat.{mod_self}
use xpu_kllm.Prelude.Words.{add64, sub32, bit_and_mask, two-pow_pos, two-pow_double_le}
use xpu_kllm.Arena.{Arena}
use xpu_kllm.Arena.Alloc
use xpu_kllm.Index.{
  Index, is_empty, empty_entry, hash_to_bucket, Probe, found, vacant, exhausted, create, probe,
  lookup, insert, evict,
}
use xpu_kllm.Index.Probing.{at, found_inversion}
use xpu_kllm.Index.Inv.{IsValid, in_use, position-lt}
use xpu_kllm.Index.Steps.{release-IsValid, touched-IsValid, recounted-IsValid}
use xpu_kllm.Index.Victim.{make_room-IsValid}
use xpu_kllm.Index.Insert.{walk, insert_block-IsValid}

-- The states that the operations reach. The clock stays below its last value.
pub data Reaches (start : Index) : Index → Type 0 where
  begin : Reaches start start
  looked_up :
      (idx : Index) (h : List ℕ) (now : ℕ)
      → now < 2 ^ 64 - 1
      → Reaches start idx
      → Reaches start (lookup idx h now).1
  inserted :
      (idx : Index) (h : List ℕ) (now : ℕ)
      → now < 2 ^ 64 - 1
      → Reaches start idx
      → Reaches start (insert idx h now).1
  evicted : (idx : Index) (h : List ℕ) → Reaches start idx → Reaches start (evict idx h).1

-- A key is found inside the table.
pub found-lt :
    {bits : ℕ} {idx : Index}
    → IsValid bits idx
    → (h : List ℕ) (b i n q : ℕ) → probe idx.entries idx.mask h b i n ≡ found q
    → q < length idx.entries
unfolding probe
found-lt v h b i zero q e = cc
found-lt v h b i (suc n) q e = ground (arith, position-lt v b i, found-lt v h b (i + 1) n q)

lookup-IsValid :
    {bits : ℕ} {idx : Index}
    → IsValid bits idx
    → (h : List ℕ) (now : ℕ) → now < 2 ^ 64 - 1
    → IsValid bits (lookup idx h now).1
unfolding lookup
lookup-IsValid {bits} {idx} v h now early =
    elim (walk idx h) as (λ (w : Probe). walk idx h ≡ w → IsValid bits (lookup idx h now).1) [
      | found q ↦ λ w.
          rw (w, lookup)
            (touched-IsValid v q (found-lt v h (hash_to_bucket h idx.mask) 0 idx.capacity q w) now
              (record idx.stats { hits = add64 idx.stats.hits 1 }) early)
      | vacant q ↦ λ w.
          rw (w, lookup)
            (recounted-IsValid (record idx.stats { misses = add64 idx.stats.misses 1 }) v)
      | exhausted ↦ λ w.
          rw (w, lookup)
            (recounted-IsValid (record idx.stats { misses = add64 idx.stats.misses 1 }) v)
    ]
      refl

evict-IsValid :
    {bits : ℕ} {idx : Index} → IsValid bits idx → (h : List ℕ) → IsValid bits (evict idx h).1
unfolding evict
evict-IsValid {bits} {idx} v h =
    elim (walk idx h) as (λ (w : Probe). walk idx h ≡ w → IsValid bits (evict idx h).1) [
      | found q ↦ λ w.
          rw (w, evict)
            (release-IsValid v q (found-lt v h (hash_to_bucket h idx.mask) 0 idx.capacity q w)
              (found_inversion idx.entries idx.mask h (hash_to_bucket h idx.mask) 0 idx.capacity q
                w).0)
      | vacant q ↦ λ w. rw (w, evict) v
      | exhausted ↦ λ w. rw (w, evict) v
    ]
      refl

pub insert-IsValid :
    {bits : ℕ} {idx : Index}
    → IsValid bits idx
    → (h : List ℕ) (now : ℕ) → now < 2 ^ 64 - 1
    → IsValid bits (insert idx h now).1
unfolding insert
insert-IsValid v h now early = insert_block-IsValid (make_room-IsValid v) h now early

-- Every operation keeps the invariant.
pub Reaches-IsValid :
    {bits : ℕ} {start : Index}
    → IsValid bits start
    → (idx : Index) → Reaches start idx
    → IsValid bits idx
Reaches-IsValid v idx begin = v
Reaches-IsValid v idx (looked_up before h now early r) =
    lookup-IsValid (Reaches-IsValid v before r) h now early
Reaches-IsValid v idx (inserted before h now early r) =
    insert-IsValid (Reaches-IsValid v before r) h now early
Reaches-IsValid v idx (evicted before h r) = evict-IsValid (Reaches-IsValid v before r) h

total-replicate : (n : ℕ) → total in_use (replicate n empty_entry) ≡ 0
total-replicate zero = refl
total-replicate (suc n) = ground (arith, total-replicate n)

all_empty : (n j : ℕ) → at (replicate n empty_entry) j ≡ empty_entry
all_empty zero j = refl
all_empty (suc n) zero = refl
all_empty (suc n) (suc j) = all_empty n j

pub create-IsValid :
    (bits : ℕ) (arena : Arena)
    → bits < 32
    → Alloc.IsValid arena
    → arena.total_slots < 2 ^ 32
    → (idx : Index) × (create (2 ^ bits) arena ≡ some idx) × IsValid bits idx
unfolding create
create-IsValid bits arena small va slots =
    let room : 2 ^ bits + 2 ^ bits ≤ 2 ^ 32 = two-pow_double_le bits small in
    let positive : 0 < 2 ^ bits = two-pow_pos bits in
    let mask : sub32 (2 ^ bits) 1 ≡ 2 ^ bits - 1 = omega arith in
    let test : bit_and (2 ^ bits) (sub32 (2 ^ bits) 1) ≡ 0 =
      ap (bit_and (2 ^ bits)) mask ∙ bit_and_mask bits (2 ^ bits) ∙ mod_self (2 ^ bits) in
    rw test (
      _,
      refl,
      record {
        small = small;
        power = refl;
        masked = mask;
        size = length-replicate (2 ^ bits) empty_entry;
        counted = sym (total-replicate (2 ^ bits));
        arena = va;
        slots = slots;
        sound = λ i u. absurd (ground (arith, ap is_empty (all_empty (2 ^ bits) i), u));
        apart = λ i j ne u w. absurd (ground (arith, ap is_empty (all_empty (2 ^ bits) i), u));
      },
    )

-- An index of 2 ^ bits entries, bits < 32, is created over a valid arena of fewer than 2 ^ 32
-- slots, and every state that lookups, insertions and evictions reach from it is valid: the count
-- of occupied entries is right, an entry in use names a slot that the arena has given out, and
-- different entries name different slots. The clock stays below 2 ^ 64 - 1.
pub create-Reaches-IsValid :
    (bits : ℕ) (arena : Arena)
    → bits < 32
    → Alloc.IsValid arena
    → arena.total_slots < 2 ^ 32
    → (start : Index) × (create (2 ^ bits) arena ≡ some start)
      × ((idx : Index) → Reaches start idx → IsValid bits idx)
create-Reaches-IsValid bits arena small va slots =
    let (start, made, v) = create-IsValid bits arena small va slots in
    (start, made, λ idx r. Reaches-IsValid v idx r)
