-- ===== src/Index/Scarce.antt =====
-- An index over an arena with fewer slots than its load factor allows never evicts by age.
use xpu_kllm.Prelude.{
  ℕ, ◌^◌, ◌<◌, ◌≡◌, ◌↔◌, refl, sym, ap, subst, ◌∙◌, arith, false, List, Option, none, some, inl,
  inr, Bool-cases, Option-cases,
}
use xpu_kllm.Arena.{Arena, alloc, free}
use xpu_kllm.Arena.Alloc
use xpu_kllm.Arena.Alloc.{is_free}
use xpu_kllm.Index.{
  create, Index, overfull, Probe, found, vacant, exhausted, lookup, insert, insert_block, make_room,
  release, find_lru_entry, evict, stored,
}
use xpu_kllm.Index.Inv.{IsValid, block_lem}
use xpu_kllm.Index.Insert.{walk, insert_block_cases}
use xpu_kllm.Index.Room.{insert-none}
use xpu_kllm.Index.Victim.{make_room-IsValid}
use xpu_kllm.Index.Runs.{
  Reaches-IsValid, create-IsValid, Reaches, begin, looked_up, inserted, evicted,
}
use xpu_kllm.Arena.Free.{alloc_none}
use xpu_kllm.Index.Occupancy.{IsScarce, overfull_never}

-- What an operation leaves as it is: the arena's size and the table's.
record Keeps (idx idx' : Index) : Type 0 where
  slots : idx'.arena.total_slots ≡ idx.arena.total_slots
  capacity : idx'.capacity ≡ idx.capacity

refl-Keeps : (idx : Index) → Keeps idx idx
refl-Keeps idx = record { slots = refl; capacity = refl }

trans-Keeps : {a b c : Index} → Keeps a b → Keeps b c → Keeps a c
trans-Keeps p q = record { slots = q.slots ∙ p.slots; capacity = q.capacity ∙ p.capacity }

free-slots : (a : Arena) (ptr : ℕ) → (free a ptr).total_slots ≡ a.total_slots
unfolding free
free-slots a ptr = ground arith

release-Keeps : (idx : Index) (pos : ℕ) → Keeps idx (release idx pos)
unfolding release
release-Keeps idx pos = record { slots = free-slots _ _; capacity = refl }

make_room-Keeps : (idx : Index) → Keeps idx (make_room idx)
unfolding make_room
make_room-Keeps idx = elim (Bool-cases (overfull idx)) [
  | inl e ↦ rw (e, make_room) (release-Keeps idx (find_lru_entry idx))
  | inr e ↦ rw (e, make_room) (refl-Keeps idx)
]

alloc-slots :
    {bits : ℕ} {idx : Index}
    → IsValid bits idx
    → (alloc idx.arena).1.total_slots ≡ idx.arena.total_slots
alloc-slots {bits} {idx} v = elim (Option-cases (alloc idx.arena).0) [
  | inl e ↦
      ap (λ (a : Arena). a.total_slots)
        (alloc_none idx.arena v.arena (alloc idx.arena).0 (alloc idx.arena).1 refl e)
  | inr (p, e) ↦
      (block_lem idx.arena p (alloc idx.arena).1 v.arena v.slots
        (ap (λ (o : Option ℕ). (o, (alloc idx.arena).1)) e)).slots
]

insert_block-Keeps :
    {bits : ℕ} {idx : Index}
    → IsValid bits idx
    → (h : List ℕ) (now : ℕ) → Keeps idx (insert_block idx h now).1
unfolding stored
insert_block-Keeps {bits} {idx} v h now =
    let slots = alloc-slots v in
    let P : Option ℕ × Index → Type 0 = λ q. Keeps idx q.1 in
    elim (insert_block_cases idx h now) [
      | inl (e, r) ↦ subst P (sym r) (record { slots = slots; capacity = refl })
      | inr (p, e, inl (pos, w, r)) ↦ subst P (sym r) (record { slots = slots; capacity = refl })
      | inr (p, e, inr (w, r)) ↦
          subst P (sym r) (record { slots = free-slots _ _ ∙ slots; capacity = refl })
    ]

insert-Keeps :
    {bits : ℕ} {idx : Index}
    → IsValid bits idx
    → (h : List ℕ) (now : ℕ) → Keeps idx (insert idx h now).1
unfolding insert
insert-Keeps {bits} {idx} v h now =
    trans-Keeps (make_room-Keeps idx) (insert_block-Keeps (make_room-IsValid v) h now)

lookup-Keeps : (idx : Index) (h : List ℕ) (now : ℕ) → Keeps idx (lookup idx h now).1
unfolding lookup
lookup-Keeps idx h now =
    elim (walk idx h) as (λ (w : Probe). walk idx h ≡ w → Keeps idx (lookup idx h now).1) [
      | found q ↦ λ w. rw (w, lookup) (record { slots = refl; capacity = refl })
      | vacant q ↦ λ w. rw (w, lookup) (record { slots = refl; capacity = refl })
      | exhausted ↦ λ w. rw (w, lookup) (record { slots = refl; capacity = refl })
    ]
      refl

evict-Keeps : (idx : Index) (h : List ℕ) → Keeps idx (evict idx h).1
unfolding evict
evict-Keeps idx h =
    elim (walk idx h) as (λ (w : Probe). walk idx h ≡ w → Keeps idx (evict idx h).1) [
      | found q ↦ λ w. rw (w, evict) (release-Keeps idx q)
      | vacant q ↦ λ w. rw (w, evict) (refl-Keeps idx)
      | exhausted ↦ λ w. rw (w, evict) (refl-Keeps idx)
    ]
      refl

Reaches-Keeps :
    {bits : ℕ} {start : Index}
    → IsValid bits start
    → (idx : Index) → Reaches start idx
    → Keeps start idx
Reaches-Keeps v idx begin = refl-Keeps idx
Reaches-Keeps v idx (looked_up before h now early r) =
    trans-Keeps (Reaches-Keeps v before r) (lookup-Keeps before h now)
Reaches-Keeps v idx (inserted before h now early r) =
    trans-Keeps (Reaches-Keeps v before r) (insert-Keeps (Reaches-IsValid v before r) h now)
Reaches-Keeps v idx (evicted before h r) =
    trans-Keeps (Reaches-Keeps v before r) (evict-Keeps before h)

pub created :
    (bits : ℕ) (arena : Arena) (start : Index)
    → create (2 ^ bits) arena ≡ some start
    → (start.arena ≡ arena) × (start.capacity ≡ 2 ^ bits)
unfolding create
created bits arena start e = ground (arith, e)

-- An index over an arena with so few slots that the load factor is out of reach never evicts a
-- block to make room, whatever lookups, insertions and evictions came before: an insertion finds
-- nothing to do in `make_room`, and it fails exactly when the arena has no free slot.
pub scarce_never_evicts :
    (bits : ℕ) (arena : Arena) (start idx : Index)
    → bits < 32
    → Alloc.IsValid arena
    → arena.total_slots < 2 ^ 32
    → IsScarce arena.total_slots (2 ^ bits)
    → create (2 ^ bits) arena ≡ some start
    → Reaches start idx
    → (make_room idx ≡ idx)
      × ((h : List ℕ) (now : ℕ)
          → ((insert idx h now).0 ≡ none) ↔ ((slot : ℕ) → is_free idx.arena slot ≡ false))
unfolding make_room
scarce_never_evicts bits arena start idx small va slots scarce made r =
    let (start', made', v') = create-IsValid bits arena small va slots in
    let v : IsValid bits start = subst (IsValid bits) (ground (arith, made, made')) v' in
    let vi = Reaches-IsValid v idx r in
    let keeps = Reaches-Keeps v idx r in
    let (same_arena, same_capacity) = created bits arena start made in
    let same_slots : idx.arena.total_slots ≡ arena.total_slots =
      keeps.slots ∙ ap (λ (a : Arena). a.total_slots) same_arena in
    let calm : overfull idx ≡ false =
      overfull_never vi (omega (arith, scarce, same_slots, keeps.capacity ∙ same_capacity)) in
    (
      rw (calm, make_room) refl,
      λ h now.
          let (only, if_so) = insert-none bits idx h now vi in
          (λ e. (only e).1, λ full. if_so (calm, full)),
    )
