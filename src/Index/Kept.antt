-- ===== src/Index/Kept.antt =====
-- What an insertion that evicts nothing leaves to the other keys.
use xpu_kllm.Prelude.{
  ℕ, ◌+◌, ◌-◌, ◌*◌, ◌^◌, ◌<◌, ◌≡◌, ◌≢◌, refl, sym, ap, ap₂, subst, ◌∙◌, arith, true, false, List,
  Option, some, inl, inr, get_or-set_ne,
}
use xpu_kllm.Arena.{Arena, alloc, free, slot_index}
use xpu_kllm.Arena.Free.{alloc_none, alloc_some}
use xpu_kllm.Index.{
  Entry, Index, is_empty, empty_entry, overfull, hash_to_bucket, found, lookup, stored, make_room,
  insert_block, insert,
}
use xpu_kllm.Index.Probing.{at, found_inversion, first_empty_inversion, found-set}
use xpu_kllm.Index.Inv.{IsValid}
use xpu_kllm.Index.Insert.{walk, insert_block_cases, insert_block-IsValid}
use xpu_kllm.Index.Hits.{lookup_hit, lookup-some}

-- A key is where it was, with the same slot, in an arena laid out as before.
Keeps : Index → Index → List ℕ → ℕ → Type 0
Keeps idx idx' k q =
    (walk idx' k ≡ found q)
    × ((at idx'.entries q).slot_index ≡ (at idx.entries q).slot_index)
    × (idx'.arena.base ≡ idx.arena.base)
    × (idx'.arena.slot_size ≡ idx.arena.slot_size)

insert_block-Keeps :
    (bits : ℕ) (idx : Index) (h k : List ℕ) (now q : ℕ)
    → IsValid bits idx
    → walk idx k ≡ found q
    → Keeps idx (insert_block idx h now).1 k q
unfolding Keeps stored free
insert_block-Keeps bits idx h k now q v e =
    let a' = (alloc idx.arena).1 in
    elim (insert_block_cases idx h now) [
      | inl (null, r) ↦
          let same : a' ≡ idx.arena =
            alloc_none idx.arena v.arena (alloc idx.arena).0 a' refl null in
          subst (λ (o : Option ℕ × Index). Keeps idx o.1 k q) (sym r)
            (e, refl, ap (λ (a : Arena). a.base) same, ap (λ (a : Arena). a.slot_size) same)
      | inr (p, given, inr (w, r)) ↦
          let (block, lt, at', va', et, was, kept, is, eb, es) =
            alloc_some idx.arena v.arena (some p) a' (ap (λ (o : Option ℕ). (o, a')) given) p
              refl in
          subst (λ (o : Option ℕ × Index). Keeps idx o.1 k q) (sym r) (e, refl, eb, es)
      | inr (p, given, inl (pos, w, r)) ↦
          let (block, lt, at', va', et, was, kept, is, eb, es) =
            alloc_some idx.arena v.arena (some p) a' (ap (λ (o : Option ℕ). (o, a')) given) p
              refl in
          let e' : Entry = record {
            hash = h;
            slot_index = slot_index a' p;
            flags = 0;
            last_access_ns = now;
          } in
          let free_place : is_empty (at idx.entries pos) ≡ true =
            first_empty_inversion idx.entries idx.mask (hash_to_bucket h idx.mask) 0 idx.capacity
              pos w in
          let used : is_empty (at idx.entries q) ≡ false =
            (found_inversion idx.entries idx.mask k (hash_to_bucket k idx.mask) 0 idx.capacity q
              e).0 in
          let differ : pos ≢ q =
            λ s. ground (arith, ap (λ (j : ℕ). is_empty (at idx.entries j)) s, free_place, used) in
          subst (λ (o : Option ℕ × Index). Keeps idx o.1 k q) (sym r)
            (
              found-set idx.entries idx.mask pos e' free_place k (hash_to_bucket k idx.mask) 0
                  idx.capacity q e,
              ap (λ (x : Entry). x.slot_index)
                  (get_or-set_ne idx.entries pos q e' empty_entry differ),
              eb,
              es,
            )
    ]

-- In a valid index that is not overfull an insertion of any key, whether it succeeds or fails,
-- keeps the hits: a key that a lookup finds, the inserted one included, keeps its block. The time
-- of the insertion is below 2 ^ 64 - 1.
pub lookup-insert_kept :
    (bits : ℕ) (idx : Index) (h k : List ℕ) (before now later p : ℕ)
    → IsValid bits idx
    → now < 2 ^ 64 - 1
    → overfull idx ≡ false
    → (lookup idx k before).0 ≡ some p
    → (lookup (insert idx h now).1 k later).0 ≡ some p
unfolding insert make_room Keeps
lookup-insert_kept bits idx h k before now later p v early fits hit =
    let (q, e) = lookup-some idx k before p hit in
    let (there, slot, eb, es) = insert_block-Keeps bits idx h k now q v e in
    let idx' = (insert_block idx h now).1 in
    let same : make_room idx ≡ idx = rw (fits, make_room) refl in
    ap (λ (i : Index). (lookup (insert_block i h now).1 k later).0) same
    ∙ lookup_hit (insert_block-IsValid v h now early) k later q there
    ∙ ap some (
        ap₂ (λ (b n : ℕ). b + (at idx'.entries q).slot_index * n) eb es
        ∙ ap (λ (n : ℕ). idx.arena.base + n * idx.arena.slot_size) slot)
    ∙ sym (lookup_hit v k before q e)
    ∙ hit
