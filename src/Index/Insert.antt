-- ===== src/Index/Insert.antt =====
-- Insertions: the invariant, and what a lookup sees afterwards.
use xpu_kllm.Prelude.{
  ℕ, ◌-◌, ◌^◌, ◌<◌, ◌≡◌, ◌≢◌, refl, sym, ap, subst, ◌∙◌, arith, false, List, Option, none, some,
  ◌⊎◌, inl, inr, Option-cases, get_or-set_self,
}
use xpu_kllm.Arena.{Arena, alloc, free, slot_index, slot_ptr}
use xpu_kllm.Arena.Alloc
use xpu_kllm.Arena.Alloc.{is_free}
use xpu_kllm.Arena.Free.{alloc_none, alloc_some, free_lem, free-alloc}
use xpu_kllm.Index.{
  Entry, Index, is_empty, empty_entry, hash_to_bucket, Probe, found, probe, first_empty, lookup,
  stored, insert_block,
}
use xpu_kllm.Index.Probing.{at, hash_eq_refl, first_empty_inversion, probe-first_empty, vacant-set}
use xpu_kllm.Index.Inv.{IsValid, block_lem, first_empty-lt}
use xpu_kllm.Index.Steps.{stored-IsValid, moved-IsValid}

-- Where the walk for a key ends.
abbrev pub walk : Index → List ℕ → Probe
walk idx h = probe idx.entries idx.mask h (hash_to_bucket h idx.mask) 0 idx.capacity

abbrev pub place : Index → List ℕ → Option ℕ
place idx h = first_empty idx.entries idx.mask (hash_to_bucket h idx.mask) 0 idx.capacity

-- The result of a lookup is that of the walk.
pub lookup_found :
    (idx : Index) (h : List ℕ) (now pos : ℕ)
    → walk idx h ≡ found pos
    → (lookup idx h now).0 ≡ slot_ptr idx.arena (at idx.entries pos).slot_index
unfolding lookup
lookup_found idx h now pos e = rw (e, lookup) refl

module _ (idx : Index) (h : List ℕ) (now : ℕ) where
  -- The three ways an insertion ends.
  pub insert_block_cases :
      (((alloc idx.arena).0 ≡ none)
        × (insert_block idx h now ≡ (none, record idx { arena = (alloc idx.arena).1 })))
      ⊎ ((p : ℕ) × ((alloc idx.arena).0 ≡ some p)
          × (((pos : ℕ) × (place idx h ≡ some pos)
                × (insert_block idx h now ≡ (
                  some p,
                  stored idx pos (alloc idx.arena).1 h (slot_index (alloc idx.arena).1 p) now,
                )))
              ⊎ ((place idx h ≡ none)
                  × (insert_block idx h now
                      ≡ (none, record idx { arena = free (alloc idx.arena).1 p })))))
  unfolding insert_block
  insert_block_cases = elim (Option-cases (alloc idx.arena).0) [
    | inl e ↦ inl (e, rw (e, insert_block) refl)
    | inr (p, e) ↦ inr (
      p,
      e,
      elim (Option-cases (place idx h)) [
        | inl w ↦ inr (w, rw (e, w, insert_block) refl)
        | inr (pos, w) ↦ inl (pos, w, rw (e, w, insert_block) refl)
      ],
    )
  ]

-- A block that found no place is given back.
given_back :
    {bits : ℕ} {idx : Index}
    → IsValid bits idx
    → (p : ℕ) (a' : Arena) → alloc idx.arena ≡ (some p, a')
    → IsValid bits (record idx { arena = free a' p })
unfolding free
given_back {bits} {idx} v p a' e =
    let (block, lt, at', va', et, was, kept, is, eb, es) =
      alloc_some idx.arena v.arena (some p) a' e p refl in
    let (va2, again, others) = free_lem a' block va' lt in
    moved-IsValid (free a' p) v (subst (λ (k : ℕ). Alloc.IsValid (free a' k)) (sym at') va2) et
      (free-alloc idx.arena p a' v.arena e)

-- An insertion behind the eviction keeps the invariant, however it ends.
pub insert_block-IsValid :
    {bits : ℕ} {idx : Index}
    → IsValid bits idx
    → (h : List ℕ) (now : ℕ) → now < 2 ^ 64 - 1
    → IsValid bits (insert_block idx h now).1
insert_block-IsValid {bits} {idx} v h now early =
    let a' = (alloc idx.arena).1 in
    elim (insert_block_cases idx h now) [
      | inl (e, r) ↦
          subst (λ (q : Option ℕ × Index). IsValid bits q.1) (sym r)
            (let same : a' ≡ idx.arena =
                alloc_none idx.arena v.arena (alloc idx.arena).0 a' refl e in
              moved-IsValid a' v (subst Alloc.IsValid (sym same) v.arena)
                (ap (λ (a : Arena). a.total_slots) same)
                (λ j. ap (λ (a : Arena). is_free a j) same))
      | inr (p, e, inl (pos, w, r)) ↦
          subst (λ (q : Option ℕ × Index). IsValid bits q.1) (sym r)
            (stored-IsValid v pos
              (first_empty-lt v (hash_to_bucket h idx.mask) 0 idx.capacity pos w) p a' h now
              (block_lem idx.arena p a' v.arena v.slots (ap (λ (o : Option ℕ). (o, a')) e))
              (first_empty_inversion idx.entries idx.mask (hash_to_bucket h idx.mask) 0 idx.capacity
                pos w)
              early)
      | inr (p, e, inr (w, r)) ↦
          subst (λ (q : Option ℕ × Index). IsValid bits q.1) (sym r)
            (given_back v p a' (ap (λ (o : Option ℕ). (o, a')) e))
    ]

-- After an insertion that gave a block, a lookup of the key gives that block, whatever was evicted
-- for it, if the key was not found before.
pub lookup-insert_block :
    {bits : ℕ} {idx : Index}
    → IsValid bits idx
    → (h : List ℕ) (now later p : ℕ) → now < 2 ^ 64 - 1
    → ((q : ℕ) → walk idx h ≢ found q)
    → (insert_block idx h now).0 ≡ some p
    → (lookup (insert_block idx h now).1 h later).0 ≡ some p
unfolding stored
lookup-insert_block {bits} {idx} v h now later p early absent given =
    let a' = (alloc idx.arena).1 in
    elim (insert_block_cases idx h now) [
      | inl (e, r) ↦ absurd (ground (arith, r))
      | inr (q, e, inr (w, r)) ↦ absurd (ground (arith, r))
      | inr (q, e, inl (pos, w, r)) ↦
          let b = hash_to_bucket h idx.mask in
          let new = stored idx pos a' h (slot_index a' q) now in
          let lt = first_empty-lt v b 0 idx.capacity pos w in
          let free = first_empty_inversion idx.entries idx.mask b 0 idx.capacity pos w in
          let block = block_lem idx.arena q a' v.arena v.slots (ap (λ (o : Option ℕ). (o, a')) e) in
          let e' : Entry = record {
            hash = h;
            slot_index = slot_index a' q;
            flags = 0;
            last_access_ns = now;
          } in
          let real : is_empty e' ≡ false = ground (arith, block.inside, v.slots) in
          let same : q ≡ p = ground (arith, r, given) in
          let there : walk new h ≡ found pos =
            elim (probe-first_empty idx.entries idx.mask h b 0 idx.capacity pos w) [
              | inl stop ↦
                  vacant-set idx.entries idx.mask pos e' free h b 0 idx.capacity lt real
                    (hash_eq_refl h) stop
              | inr (k, hit) ↦ absurd (absent k hit)
            ] in
          ap (λ (o : Option ℕ × Index). (lookup o.1 h later).0) r
          ∙ lookup_found new h later pos there
          ∙ ap (λ (x : Entry). slot_ptr a' x.slot_index)
              (get_or-set_self idx.entries pos e' empty_entry lt)
          ∙ block.pointer
          ∙ ap some same
    ]
